-- ===== src/Nodes/Handles/Pages.antt =====
-- The pages of a directory stream (`OpenDir::readdir` in src/nodes/dir.rs), as the kernel asks for
-- them: first with offset 0, and then with the offset of the last entry that it has.
use sandboxfs_rust.Base.{
  ℕ, zero, suc, ◌+◌, ◌-◌, ◌≤◌, ◌<◌, ◌≡◌, ◌∙◌, List, [], ◌∷◌, ◌++◌, refl, sym, ap, arith, length,
  drop, replicate,
}
use sandboxfs_rust.State.{ReplyEntry}
use sandboxfs_rust.Nodes.Handles.{fill, page, start_of}

abbrev Page : Type 0
Page = List (ℕ × ReplyEntry)

-- The entries from an index on, each with its index.
abbrev pub numbered : ℕ → List ReplyEntry → Page
numbered i [] = []
numbered i (e ∷ es) = (i, e) ∷ numbered (i + 1) es

abbrev pub last_offset : ℕ → Page → ℕ
last_offset offset [] = offset
last_offset offset ((i, e) ∷ es) = last_offset i es

-- The kernel's loop: it asks for pages until one is empty. `room` entries fit in a buffer.
pub stream : ℕ → ℕ → ℕ → List ReplyEntry → Page
stream zero room offset contents = []
stream (suc fuel) room offset contents = elim (page room offset contents) [
  | [] ↦ []
  | e ∷ es ↦ (e ∷ es) ++ stream fuel room (last_offset offset (e ∷ es)) contents
]

length-drop : (n : ℕ) (xs : List ReplyEntry) → length (drop n xs) ≡ length xs - n
length-drop zero xs = omega arith
length-drop (suc n) [] = omega arith
length-drop (suc n) (x ∷ xs) = omega (arith, length-drop n xs)

drop-same : (m n : ℕ) (xs : List ReplyEntry) → m ≡ n → drop m xs ≡ drop n xs
drop-same m n xs e = ap (λ k. drop k xs) e

drop-nil : (n : ℕ) → ◌≡◌ {A = List ReplyEntry} (drop n []) []
drop-nil zero = refl
drop-nil (suc n) = refl

drop-drop : (a b : ℕ) (xs : List ReplyEntry) → drop a (drop b xs) ≡ drop (b + a) xs
drop-drop a zero xs = drop-same a (0 + a) xs (omega arith)
drop-drop a (suc b) [] = drop-nil a ∙ sym (drop-nil (suc b + a))
drop-drop a (suc b) (x ∷ xs) =
    drop-drop a b xs ∙ drop-same (suc (b + a)) (suc b + a) (x ∷ xs) (omega arith)

-- The entries from an index on are those that fit and those behind them.
numbered-fill :
    (r i : ℕ) (xs : List ReplyEntry)
    → numbered i xs
      ≡ fill r i xs ++ numbered (i + length (fill r i xs)) (drop (length (fill r i xs)) xs)
unfolding fill
numbered-fill zero i [] = refl
numbered-fill zero i (x ∷ xs) = ap (λ j. numbered j (x ∷ xs)) (omega arith)
numbered-fill (suc r) i [] = refl
numbered-fill (suc r) i (x ∷ xs) =
    ap (λ (t : Page). (i, x) ∷ t)
      (numbered-fill r (i + 1) xs
        ∙ ap (λ j. fill r (i + 1) xs ++ numbered j (drop (length (fill r (i + 1) xs)) xs))
            (omega arith))

last_offset-fill :
    (r i : ℕ) (xs : List ReplyEntry)
    → last_offset i (fill r (i + 1) xs) ≡ i + length (fill r (i + 1) xs)
unfolding fill
last_offset-fill zero i [] = omega arith
last_offset-fill zero i (x ∷ xs) = omega arith
last_offset-fill (suc r) i [] = omega arith
last_offset-fill (suc r) i (x ∷ xs) = omega (arith, last_offset-fill r (i + 1) xs)

module _ (contents : List ReplyEntry) where
  -- The offset that the kernel sends after a page that begins at index `k` and has `x` first.
  next_offset : ℕ → ℕ → List ReplyEntry → ℕ
  next_offset room k xs = k + length (fill room (k + 1) xs)

  -- A request whose page begins at index `k`, where there is an entry left.
  round :
      (fuel room offset k : ℕ) (x : ReplyEntry) (xs : List ReplyEntry)
      → start_of offset ≡ k
      → drop k contents ≡ x ∷ xs
      → stream (suc fuel) (suc room) offset contents
        ≡ (k, x) ∷ (fill room (k + 1) xs ++ stream fuel (suc room) (next_offset room k xs) contents)
  unfolding stream page next_offset
  round fuel room offset k x xs start left =
      rw (start, left, stream) (rw (last_offset-fill room k xs))

  round_end :
      (fuel room offset k : ℕ)
      → start_of offset ≡ k
      → drop k contents ≡ []
      → stream (suc fuel) (suc room) offset contents ≡ []
  unfolding stream page fill
  round_end fuel room offset k start left = rw (start, left, stream)

  -- What lies behind a page.
  left_after :
      (room k : ℕ) (x : ReplyEntry) (xs : List ReplyEntry)
      → drop k contents ≡ x ∷ xs
      → drop (next_offset room k xs + 1) contents ≡ drop (length (fill room (k + 1) xs)) xs
  unfolding next_offset
  left_after room k x xs left =
      let n : ℕ = length (fill room (k + 1) xs) in
      drop-same (k + n + 1) (k + suc n) contents (omega arith)
      ∙ sym (drop-drop (suc n) k contents)
      ∙ ap (drop (suc n)) left

  -- A page and the numbered entries behind it are the numbered entries.
  page_and_rest :
      (room k : ℕ) (x : ReplyEntry) (xs : List ReplyEntry)
      → drop k contents ≡ x ∷ xs
      → ((k, x)
          ∷ (fill room (k + 1) xs
              ++ numbered (next_offset room k xs + 1) (drop (next_offset room k xs + 1) contents)))
        ≡ numbered k (x ∷ xs)
  unfolding next_offset
  page_and_rest room k x xs left =
      let n : ℕ = length (fill room (k + 1) xs) in
      let behind : drop (k + n + 1) contents ≡ drop n xs = left_after room k x xs left in
      let same : k + n + 1 ≡ k + 1 + n = omega arith in
      rw behind (rw same (ap (λ (t : Page). (k, x) ∷ t) (sym (numbered-fill room (k + 1) xs))))

  abbrev Streamed : ℕ → ℕ → ℕ → Type 0
  Streamed fuel room offset =
      stream fuel room offset contents ≡ numbered (offset + 1) (drop (offset + 1) contents)

  follow :
      (fuel room offset k : ℕ) (x : ReplyEntry) (xs : List ReplyEntry)
      → start_of offset ≡ k
      → drop k contents ≡ x ∷ xs
      → Streamed fuel (suc room) (next_offset room k xs)
      → stream (suc fuel) (suc room) offset contents ≡ numbered k (x ∷ xs)
  follow fuel room offset k x xs start left rest =
      rw (round fuel room offset k x xs start left) (rw rest (page_and_rest room k x xs left))

  -- Behind a page there is less than before.
  left_falls :
      (room k : ℕ) (x : ReplyEntry) (xs : List ReplyEntry)
      → drop k contents ≡ x ∷ xs
      → length (drop (next_offset room k xs + 1) contents) < length (drop k contents)
  left_falls room k x xs left =
      let behind = left_after room k x xs left in
      rw (behind, left) (omega (arith, length-drop (length (fill room (k + 1) xs)) xs))

  -- The rest of a stream, once the kernel has an entry whose offset is not 0.
  stream_rest :
      (fuel room offset : ℕ)
      → 0 < offset
      → length (drop (offset + 1) contents) < fuel
      → Streamed fuel (suc room) offset
  stream_rest zero room offset h enough = absurd (omega arith)
  stream_rest (suc fuel) room offset h enough =
      go (drop (offset + 1) contents) refl (stream_rest fuel room)
    where
      start : start_of offset ≡ offset + 1
      start = ground arith

      Rest : Type 0
      Rest = (o : ℕ) → 0 < o → length (drop (o + 1) contents) < fuel → Streamed fuel (suc room) o

      go :
          (left : List ReplyEntry)
          → drop (offset + 1) contents ≡ left
          → Rest
          → Streamed (suc fuel) (suc room) offset
      go [] e more = rw e (round_end fuel room offset (offset + 1) start e)
      go (x ∷ xs) e more = rw e (
          follow fuel room offset (offset + 1) x xs start e (
            more (next_offset room (offset + 1) xs) next_pos
              (omega (arith, left_falls room (offset + 1) x xs e))))
        where
          next_pos : 0 < next_offset room (offset + 1) xs
          next_pos = unfold next_offset in omega arith

-- A kernel that reads a directory of two entries or more, as every directory has, with buffers that
-- take two entries or more, gets every entry exactly once, in order, each with its own index as its
-- offset; and more requests than there are entries are enough to come to the end.
pub stream_all :
    (fuel room : ℕ) (contents : List ReplyEntry)
    → 2 ≤ room
    → 2 ≤ length contents
    → length contents < fuel
    → stream fuel room 0 contents ≡ numbered 0 contents
stream_all (suc fuel) (suc (suc room)) (x ∷ y ∷ zs) two_fit two enough =
    follow (x ∷ y ∷ zs) fuel (suc room) 0 0 x (y ∷ zs) (ground arith) refl (
      stream_rest (x ∷ y ∷ zs) fuel (suc room) (next_offset (x ∷ y ∷ zs) (suc room) 0 (y ∷ zs))
        (unfold next_offset fill in omega arith)
        (omega (arith, left_falls (x ∷ y ∷ zs) (suc room) 0 x (y ∷ zs) refl)))
stream_all zero room contents two_fit two enough = absurd (omega arith)
stream_all fuel zero contents two_fit two enough = absurd (omega arith)
stream_all fuel (suc zero) contents two_fit two enough = absurd (omega arith)
stream_all fuel room [] two_fit two enough = absurd (omega arith)
stream_all fuel room (x ∷ []) two_fit two enough = absurd (omega arith)

-- A buffer that takes one entry only: the last entry that the kernel has is then the one with
-- offset 0, which asks for a fresh start, so that the kernel gets the first entry again and again.
pub stream_repeats :
    (fuel : ℕ) (x : ReplyEntry) (xs : List ReplyEntry)
    → stream fuel 1 0 (x ∷ xs) ≡ replicate fuel (0, x)
unfolding stream page fill
stream_repeats zero x xs = refl
stream_repeats (suc fuel) x [] = ap (λ (t : Page). (0, x) ∷ t) (stream_repeats fuel x [])
stream_repeats (suc fuel) x (y ∷ ys) =
    ap (λ (t : Page). (0, x) ∷ t) (stream_repeats fuel x (y ∷ ys))
