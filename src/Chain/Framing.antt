-- ===== src/Chain/Framing.antt =====
-- HashV2's length prefixes: the bytes that are hashed determine the fields.
use st_air_case.Prelude.{
  ℕ, zero, suc, ◌^◌, ◌<◌, List, [], ◌∷◌, ◌++◌, ◌≡◌, refl, ap, arith, length, All, append_assoc, sym,
  ◌∙◌,
}
use st_air_case.Chain.{Bytes, be_bytes, framed, frame_all, message_v2, label}

length-be_bytes : (k n : ℕ) → length (be_bytes k n) ≡ k
unfolding be_bytes
length-be_bytes zero n = refl
length-be_bytes (suc k) n = ap suc (length-be_bytes k n)

split_append :
    (as' bs xs ys : Bytes) → length as' ≡ length bs → as' ++ xs ≡ bs ++ ys → (as' ≡ bs) × (xs ≡ ys)
split_append [] [] xs ys l h = (refl, h)
split_append [] (b ∷ bs) xs ys l h = absurd (omega arith)
split_append (a ∷ as') [] xs ys l h = absurd (omega arith)
split_append (a ∷ as') (b ∷ bs) xs ys l h =
    let (p, q) = split_append as' bs xs ys (omega arith) (cc) in (cc, q)

-- A length that fits Go's `uint64` is determined by its eight bytes.
be_bytes-injective : (m n : ℕ) → m < 2 ^ 64 → n < 2 ^ 64 → be_bytes 8 m ≡ be_bytes 8 n → m ≡ n
unfolding be_bytes
be_bytes-injective m n hm hn h = ground arith

framed-injective :
    (a b xs ys : Bytes)
    → length a < 2 ^ 64
    → length b < 2 ^ 64
    → framed a ++ xs ≡ framed b ++ ys
    → (a ≡ b) × (xs ≡ ys)
unfolding framed
framed-injective a b xs ys ha hb h =
    let (p, q) =
      split_append (be_bytes 8 (length a)) (be_bytes 8 (length b)) (a ++ xs) (b ++ ys)
        (length-be_bytes 8 (length a) ∙ sym (length-be_bytes 8 (length b)))
        (sym (append_assoc (be_bytes 8 (length a)) a xs)
          ∙ h
          ∙ append_assoc (be_bytes 8 (length b)) b ys) in
    split_append a b xs ys (be_bytes-injective (length a) (length b) ha hb p) q

abbrev pub FitsWord : Bytes → Type 0
FitsWord f = length f < 2 ^ 64

frame_all-injective :
    (fs gs : List Bytes)
    → length fs ≡ length gs
    → All FitsWord fs
    → All FitsWord gs
    → frame_all fs ≡ frame_all gs
    → fs ≡ gs
unfolding frame_all
frame_all-injective [] [] l hf hg h = refl
frame_all-injective [] (g ∷ gs) l hf hg h = absurd (omega arith)
frame_all-injective (f ∷ fs) [] l hf hg h = absurd (omega arith)
frame_all-injective (f ∷ fs) (g ∷ gs) l hf hg h =
    let (p, q) = framed-injective f g (frame_all fs) (frame_all gs) hf.0 hg.0 h in
    cc (p, frame_all-injective fs gs (omega arith) hf.1 hg.1 q)

-- What version 2 hashes determines the event type, the payload, the previous hash and the commit,
-- as long as their lengths fit the eight bytes that each is written in: no field can be moved into
-- its neighbour.
pub message_v2-injective :
    (e p h c e' p' h' c' : Bytes)
    → All FitsWord (e ∷ p ∷ h ∷ c ∷ [])
    → All FitsWord (e' ∷ p' ∷ h' ∷ c' ∷ [])
    → message_v2 e p h c ≡ message_v2 e' p' h' c'
    → (e ≡ e') × (p ≡ p') × (h ≡ h') × (c ≡ c')
unfolding message_v2
message_v2-injective e p h c e' p' h' c' fits fits' same =
    let (_', q) = split_append label label _ _ refl same in
    let all = frame_all-injective (e ∷ p ∷ h ∷ c ∷ []) (e' ∷ p' ∷ h' ∷ c' ∷ []) refl fits fits' q in
    (cc, cc, cc, cc)
