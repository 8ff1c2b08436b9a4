-- ===== src/Transport/StreamQueue.antt =====
-- The queue of a `StreamFrameWriter` and `FrameWriter::flushToDevice` (libshviotqt/src/rpc/socket.cpp).
-- What the device answers to each `write` is an argument.
use libshv.Base.{
  ℕ, zero, suc, ◌+◌, ◌<◌, ◌≤◌, ◌≡◌, refl, sym, ap, ◌∙◌, true, ltb, if◌then◌else◌, Option, none,
  some, List, [], ◌∷◌, ◌++◌, append_assoc, Str, length, take, drop, arith, All, Bool-cases, inl,
  inr,
}
use libshv.Base.Int.{ℤ, pos, negsuc}
use libshv.Transport.Stream.{stream_frame}

-- The bytes of a queue, one message after the other.
abbrev pub flat : List Str → Str
flat [] = []
flat (d ∷ ds) = d ++ flat ds

abbrev queued : List Str → Option Str → Option (List Str)
queued q none = none
queued q (some d) = some (q ++ (d ∷ []))

-- `StreamFrameWriter::addFrameData`, on `m_messageDataToWrite`
unfoldable pub add_frame_data : List Str → Str → Str → Option (List Str)
add_frame_data q head payload = queued q (stream_frame head payload)

-- What is left of a message of which the device took `n` bytes.
abbrev unwritten : ℕ → Str → List Str → List Str
unwritten n d q = if ltb n (length d) then drop n d ∷ q else q

abbrev took : ℤ → Str → List Str → (List Str → Str × List Str) → Str × List Str
took (negsuc n) d q next = ([], d ∷ q)
took (pos zero) d q next = ([], d ∷ q)
took (pos (suc n)) d q next =
    let (w, left) = next (unwritten (suc n) d q) in (take (suc n) d ++ w, left)

-- `FrameWriter::flushToDevice`: the bytes that the device took and the queue that is left, for the
-- numbers that the device answers, up to the last of them.
unfoldable pub flush_to_device : List ℤ → List Str → Str × List Str
flush_to_device answers [] = ([], [])
flush_to_device [] (d ∷ q) = ([], d ∷ q)
flush_to_device (a ∷ answers) (d ∷ q) = took a d q (flush_to_device answers)

take-drop : (n : ℕ) (d : Str) → take n d ++ drop n d ≡ d
take-drop zero d = refl
take-drop (suc n) [] = refl
take-drop (suc n) (x ∷ d) = ap (λ t. x ∷ t) (take-drop n d)

take-all : (n : ℕ) (d : Str) → length d ≤ n → take n d ≡ d
take-all zero [] h = refl
take-all zero (x ∷ d) h = absurd (omega arith)
take-all (suc n) [] h = refl
take-all (suc n) (x ∷ d) h = ap (λ t. x ∷ t) (take-all n d (omega arith))

flat-unwritten : (n : ℕ) (d : Str) (q : List Str) → take n d ++ flat (unwritten n d q) ≡ d ++ flat q
flat-unwritten n d q = elim (Bool-cases (ltb n (length d))) [
  | inl e ↦
      rw e
        (sym (append_assoc (take n d) (drop n d) (flat q)) ∙ ap (λ t. t ++ flat q) (take-drop n d))
  | inr e ↦ rw (e, take-all n d (ground arith)) refl
]

-- Whatever the device answers, the bytes that it took and the queue that is left make up the queue
-- that there was.
pub flush_to_device-flat :
    (answers : List ℤ) (q : List Str)
    → (flush_to_device answers q).0 ++ flat (flush_to_device answers q).1 ≡ flat q
unfolding flush_to_device
flush_to_device-flat answers [] = refl
flush_to_device-flat [] (d ∷ q) = refl
flush_to_device-flat (negsuc n ∷ answers) (d ∷ q) = refl
flush_to_device-flat (pos zero ∷ answers) (d ∷ q) = refl
flush_to_device-flat (pos (suc n) ∷ answers) (d ∷ q) =
    append_assoc (take (suc n) d) _ _
    ∙ ap (λ t. take (suc n) d ++ t) (flush_to_device-flat answers (unwritten (suc n) d q))
    ∙ flat-unwritten (suc n) d q

-- A device that takes a byte at least.
abbrev pub Takes : ℤ → Type 0
Takes (pos n) = 0 < n
Takes (negsuc n) = ⊥

-- Numbers of bytes still in the queue, with one for each empty message.
abbrev pub work : List Str → ℕ
work [] = 0
work (d ∷ q) = suc (length d) + work q

length-drop-suc :
    (n : ℕ) (d : Str) → ltb (suc n) (length d) ≡ true → length (drop (suc n) d) < length d
length-drop-suc n [] h = ground arith
length-drop-suc zero (x ∷ d) h = omega arith
length-drop-suc (suc n) (x ∷ d) h = omega (arith, length-drop-suc n d (ground arith))

work-unwritten : (n : ℕ) (d : Str) (q : List Str) → work (unwritten (suc n) d q) < work (d ∷ q)
work-unwritten n d q = elim (Bool-cases (ltb (suc n) (length d))) [
  | inl e ↦ rw e (omega (arith, length-drop-suc n d e))
  | inr e ↦ rw e (omega arith)
]

-- A device that takes a byte at least at each write takes the whole queue, in as many writes as the
-- queue has bytes and messages.
pub flush_to_device-All :
    (answers : List ℤ) (q : List Str)
    → All Takes answers
    → work q ≤ length answers
    → flush_to_device answers q ≡ (flat q, [])
unfolding flush_to_device
flush_to_device-All answers [] h lt = refl
flush_to_device-All [] (d ∷ q) h lt = absurd (omega arith)
flush_to_device-All (negsuc n ∷ answers) (d ∷ q) h lt = absurd h.0
flush_to_device-All (pos zero ∷ answers) (d ∷ q) h lt = absurd (omega arith)
flush_to_device-All (pos (suc n) ∷ answers) (d ∷ q) h lt =
    rw
      (flush_to_device-All answers (unwritten (suc n) d q) h.1
        (omega (arith, work-unwritten n d q)))
      (ap (λ t. (t, [])) (flat-unwritten (suc n) d q))
