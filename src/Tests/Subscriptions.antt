-- ===== src/Tests/Subscriptions.antt =====
-- Paths and subscriptions at concrete inputs.
use libshv.Base.{
  length, ℕ, ◌≡◌, ◌↔◌, ◌⊎◌, refl, true, false, List, [], ◌∷◌, ◌++◌, Str, codes, take, All, arith,
  erase_at, streq,
}
use libshv.Base.Int.{pos, negsuc, to_int32}
use libshv.Path.Prefix.{starts_with_path, IsAbove, starts_with_path_iff}
use libshv.Broker.Subscription.{
  Subscription, subscription, cmp_subscribed, match_signal, add_subscription, remove_subscription,
  is_subscribed, subscribed_from, reject_not_subscribed_signal,
}
use libshv.Broker.Subscribed.{IsDistinct, IsFirst}
use libshv.Broker.Subscribing.{
  add_subscription_lem, remove_subscription-add_subscription, add-remove-reject-IsDistinct,
  is_subscribed_lem,
}
use libshv.Broker.Trimming.{slashes, subscription-padded}
use libshv.Broker.Rejecting.{
  is_open, IsMostExplicit, IsUpTo, reject_not_subscribed_signal_lem,
  reject_not_subscribed_signal_root,
}

abbrev chng_of : Str → Subscription
chng_of path = record { path = path; method = codes "chng"; source = [] }

-- The client has two subscriptions.
abbrev client : List Subscription
client = chng_of (codes "a") ∷ chng_of (codes "a/b") ∷ []

-- A client of the root.
abbrev root_client : List Subscription
root_client = chng_of [] ∷ []

client-IsDistinct : IsDistinct client
unfolding cmp_subscribed streq
client-IsDistinct = ((refl, tt), (tt, tt))

starts_with_path_iff_example :
    ((starts_with_path (codes "a/b") (codes "a")).0 ≡ true) ↔ IsAbove (codes "a") (codes "a/b")
starts_with_path_iff_example = starts_with_path_iff (codes "a/b") (codes "a")

add_subscription_lem_example :
    ((All (λ x. cmp_subscribed (chng_of (codes "c")) x ≡ false) client)
      × (add_subscription client (chng_of (codes "c"))
          ≡ (length client, client ++ (chng_of (codes "c") ∷ []))))
    ⊎ ((i : ℕ) × IsFirst (cmp_subscribed (chng_of (codes "c"))) client i
        × (add_subscription client (chng_of (codes "c")) ≡ (i, client)))
add_subscription_lem_example = add_subscription_lem client (chng_of (codes "c")) (omega arith)

client-new : All (λ x. cmp_subscribed (chng_of (codes "c")) x ≡ false) client
unfolding cmp_subscribed streq
client-new = (refl, (refl, tt))

remove_subscription-add_subscription_example :
    remove_subscription (add_subscription client (chng_of (codes "c"))).1 (chng_of (codes "c"))
    ≡ (true, client)
remove_subscription-add_subscription_example =
    remove_subscription-add_subscription client (chng_of (codes "c")) client-new

add-remove-reject-IsDistinct_example :
    IsDistinct (add_subscription client (chng_of (codes "c"))).1
    × IsDistinct (remove_subscription client (chng_of (codes "c"))).1
    × IsDistinct (reject_not_subscribed_signal client (codes "a/b/c") (codes "chng") []).1
add-remove-reject-IsDistinct_example =
    add-remove-reject-IsDistinct client (chng_of (codes "c")) (codes "a/b/c") (codes "chng") []
      client-IsDistinct

is_subscribed_lem_example :
    ((is_subscribed client (codes "a/b") (codes "chng") [] ≡ negsuc 0)
      × All (λ s. match_signal s (codes "a/b") (codes "chng") [] ≡ false) client)
    ⊎ ((i : ℕ) × (is_subscribed client (codes "a/b") (codes "chng") [] ≡ pos i)
        × IsFirst (λ s. match_signal s (codes "a/b") (codes "chng") []) client i)
is_subscribed_lem_example = is_subscribed_lem client (codes "a/b") (codes "chng") [] (omega arith)

reject_not_subscribed_signal_lem_example :
    ((i : ℕ) × IsFirst (is_open (codes "a/b") (codes "chng") []) client i
      × (reject_not_subscribed_signal client (codes "a/b") (codes "chng") []
          ≡ (true, erase_at client i)))
    ⊎ (((i : ℕ) × (All (λ t. is_open (codes "a/b") (codes "chng") [] t ≡ false) client)
          × IsMostExplicit (codes "a/b") (codes "chng") [] 0 client i
          × (reject_not_subscribed_signal client (codes "a/b") (codes "chng") []
              ≡ (true, erase_at client i)))
        ⊎ ((All (λ t. is_open (codes "a/b") (codes "chng") [] t ≡ false) client)
            × IsUpTo (codes "a/b") (codes "chng") [] 0 client
            × (reject_not_subscribed_signal client (codes "a/b") (codes "chng") []
                ≡ (false, client))))
reject_not_subscribed_signal_lem_example =
    reject_not_subscribed_signal_lem (codes "a/b") (codes "chng") [] client (omega arith)

reject_not_subscribed_signal_root_example :
    reject_not_subscribed_signal root_client (codes "a") (codes "chng") [] ≡ (false, root_client)
reject_not_subscribed_signal_root_example =
    reject_not_subscribed_signal_root (codes "a") (codes "chng") [] root_client ((refl, refl), tt)

-- The client of the root did subscribe the signal.
is_subscribed-root_client : is_subscribed root_client (codes "a") (codes "chng") [] ≡ pos 0
unfolding is_subscribed subscribed_from match_signal starts_with_path streq to_int32
is_subscribed-root_client = refl

-- "/a/b/" keeps its slash behind.
subscription-padded_example :
    subscription (slashes 1 ++ (codes "a/b" ++ slashes 1)) (codes "chng") []
    ≡ record { path = codes "a/b" ++ take 1 (slashes 1); method = codes "chng"; source = [] }
subscription-padded_example = subscription-padded 97 (codes "/b") (codes "chng") [] 1 1 refl refl
