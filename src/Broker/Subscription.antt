-- ===== src/Broker/Subscription.antt =====
-- `CommonRpcClientHandle` of libshvbroker/src/rpc/commonrpcclienthandle.cpp: the subscriptions of
-- one client.
use libshv.Base.{
  ℕ, zero, suc, ◌-◌, ◌%◌, ◌^◌, Bool, true, false, ◌&&◌, ◌||◌, ltb, if◌then◌else◌, Option, none,
  some, List, [], ◌∷◌, ◌++◌, Str, codes, streq, is_nil, length, get_elem?, take, drop, set,
  erase_at,
}
use libshv.Base.Int.{ℤ, pos, negsuc, to_int32}
use libshv.Path.Prefix.{is_delim, starts_with_path}

pub record Subscription : Type 0 where
  pub path : Str
  pub method : Str
  pub source : Str

-- `ix1`: the number of leading slashes.
unfoldable pub leading_slashes : Str → ℕ
leading_slashes [] = 0
leading_slashes (c ∷ cs) =
    let rest = leading_slashes cs in if is_delim (some c) then suc rest else 0

-- `len`: the length without the trailing slashes.
unfoldable pub trimmed_length : Str → ℕ → ℕ
trimmed_length path zero = zero
trimmed_length path (suc n) =
    let rest = trimmed_length path n in if is_delim (get_elem? path n) then rest else suc n

-- `Subscription(path_, method_, source_)`
unfoldable pub subscription : Str → Str → Str → Subscription
subscription path method source = record {
  path = take (trimmed_length path (length path)) (drop (leading_slashes path) path);
  method = method;
  source = source;
}

-- `cmpSubscribed`
unfoldable pub cmp_subscribed : Subscription → Subscription → Bool
cmp_subscribed s o =
    if streq s.path o.path then streq s.method o.method && streq s.source o.source else false

-- `match`
unfoldable pub match_signal : Subscription → Str → Str → Str → Bool
match_signal s signal_path signal_method signal_source =
    if (starts_with_path signal_path s.path).0
    then (let source = if is_nil signal_source then codes "get" else signal_source in
        (is_nil s.method || streq s.method signal_method)
        && (is_nil s.source || streq s.source source))
    else false

-- `std::find_if`: the position of the first element that passes the test.
unfoldable pub find_if : (Subscription → Bool) → List Subscription → Option ℕ
find_if p [] = none
find_if p (x ∷ xs) =
    if p x then some 0 else elim (find_if p xs) [ none ↦ none | some i ↦ some (suc i) ]

-- The end of `addSubscription`, with the position that was found.
abbrev pub add_at : List Subscription → Subscription → Option ℕ → ℕ × List Subscription
add_at l s none = ((length (l ++ (s ∷ [])) - 1) % 2 ^ 32, l ++ (s ∷ []))
add_at l s (some i) = (i % 2 ^ 32, set l i s)

-- `addSubscription`
unfoldable pub add_subscription : List Subscription → Subscription → ℕ × List Subscription
add_subscription l s = add_at l s (find_if (cmp_subscribed s) l)

-- The subscription that was found is erased.
abbrev pub erase_found : List Subscription → Option ℕ → Bool × List Subscription
erase_found l none = (false, l)
erase_found l (some i) = (true, erase_at l i)

-- `removeSubscription`
unfoldable pub remove_subscription : List Subscription → Subscription → Bool × List Subscription
remove_subscription l s = erase_found l (find_if (cmp_subscribed s) l)

-- `isSubscribed`, from the subscription at `i` on.
unfoldable pub subscribed_from : ℕ → List Subscription → Str → Str → Str → ℤ
subscribed_from i [] path method source = negsuc 0
subscribed_from i (s ∷ rest) path method source =
    if match_signal s path method source
    then to_int32 (pos i)
    else subscribed_from (suc i) rest path method source

unfoldable pub is_subscribed : List Subscription → Str → Str → Str → ℤ
is_subscribed l path method source = subscribed_from 0 l path method source

-- The loop of `rejectNotSubscribedSignal`: `most_explicit_subs_ix` and `max_path_len` when the
-- subscription at `i` is looked at.
unfoldable pub most_explicit : Str → Str → Str → ℤ → ℕ → ℕ → List Subscription → ℤ
most_explicit path method source best max_len i [] = best
most_explicit path method source best max_len i (s ∷ rest) =
    let skipped = most_explicit path method source best max_len (suc i) rest in
    let longer = most_explicit path method source (to_int32 (pos i)) (length s.path) (suc i) rest in
    if match_signal s path method source
    then (if is_nil s.method
        then to_int32 (pos i)
        else if ltb max_len (length s.path)
        then longer
        else skipped)
    else skipped

-- The end of `rejectNotSubscribedSignal`, with the position that was found.
abbrev pub erase_explicit : List Subscription → ℤ → Bool × List Subscription
erase_explicit l (pos i) = (true, erase_at l i)
erase_explicit l (negsuc i) = (false, l)

-- `rejectNotSubscribedSignal`
unfoldable pub reject_not_subscribed_signal :
    List Subscription → Str → Str → Str → Bool × List Subscription
reject_not_subscribed_signal l path method source =
    erase_explicit l (most_explicit path method source (negsuc 0) 0 0 l)
