-- ===== src/Sandbox/Xattr/Laws.antt =====
-- The encoding of the names of extended attributes (`xattrs_to_u8`), and the reply to the kernel.
use sandboxfs_rust.Base.{
  ℕ, ◌-◌, ◌^◌, ◌≤◌, ◌<◌, ◌≡◌, ◌≢◌, List, [], ◌∷◌, ◌++◌, Bytes, refl, arith, length, ◌==◌, nat_eq,
  if◌then◌else◌, Option, none, some, leb,
}
use sandboxfs_rust.Sandbox.Xattr.{Reply, xattrs_to_u8, size, content, error, reply_xattr}

-- What a reader of the list does: a name ends at a zero byte.
abbrev add_to_first : ℕ → List Bytes → List Bytes
add_to_first c [] = (c ∷ []) ∷ []
add_to_first c (n ∷ ns) = (c ∷ n) ∷ ns

pub decode : Bytes → List Bytes
decode [] = []
decode (c ∷ cs) = let rest = decode cs in if c == 0 then [] ∷ rest else add_to_first c rest

abbrev pub HasNoZero : Bytes → Type 0
HasNoZero [] = Unit
HasNoZero (c ∷ cs) = (c ≢ 0) × HasNoZero cs

abbrev pub AllNames : List Bytes → Type 0
AllNames [] = Unit
AllNames (n ∷ ns) = HasNoZero n × AllNames ns

decode-name : (n rest : Bytes) → HasNoZero n → decode (n ++ (0 ∷ rest)) ≡ n ∷ decode rest
unfolding decode
decode-name [] rest h = refl
decode-name (c ∷ cs) rest h = ground (arith, decode-name cs rest h.1)

-- A reader that takes a name up to each zero byte gets back exactly the list of names, if no name
-- has a zero byte in it.
pub decode-xattrs_to_u8 :
    (names : List Bytes) → AllNames names → decode (xattrs_to_u8 names) ≡ names
unfolding xattrs_to_u8 decode
decode-xattrs_to_u8 [] h = refl
decode-xattrs_to_u8 (n ∷ ns) h =
    ground (arith, decode-name n (xattrs_to_u8 ns) h.0, decode-xattrs_to_u8 ns h.1)

-- What a kernel does that wants a value of any size: it asks for the size with limit 0, and then
-- for the value with that size as the limit, unless the size is 0.
pub read_whole : (ℕ → Reply) → Option Bytes
read_whole ask = elim (ask 0) [
  | size n ↦
      if n == 0
      then some []
      else elim (ask n) [ content value ↦ some value | size _ ↦ none | error _ ↦ none ]
  | content _ ↦ none
  | error _ ↦ none
]

-- A kernel that asks for the size of a value, and then for the value with that size, gets the
-- value, also an empty one, exactly when a u32 can hold its length. Whatever the limit is, the
-- content that a reply carries is the whole value, and no longer than the limit, which is not 0.
pub reply_xattr_protocol :
    (value : Bytes)
    → (read_whole (λ limit. reply_xattr limit value)
        ≡ (if leb (length value) (2 ^ 32 - 1) then some value else none))
      × ((limit : ℕ) (c : Bytes)
          → reply_xattr limit value ≡ content c
          → (c ≡ value) × (length value ≤ limit) × (0 < limit))
unfolding reply_xattr read_whole
reply_xattr_protocol [] = (refl, λ limit c h. ground arith)
reply_xattr_protocol (b ∷ bs) = (ground arith, λ limit c h. ground arith)
