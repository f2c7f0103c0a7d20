-- ===== src/GraphStore/Keys.antt =====
-- The keys of vertices and edges (pkg/graphmdbx/store.go).
use peerdns.Prelude.{
  ◌≡◌, refl, ap, ◌∙◌, sym, [], ◌∷◌, ◌++◌, arith, Bytes, hex, hex-injective, length, length-hex,
  drop-append, drop,
}
use peerdns.GraphStore.{colon}

pub append_left-injective : (p x y : Bytes) → p ++ x ≡ p ++ y → x ≡ y
append_left-injective p x y e = sym (drop-append p x) ∙ ap (drop (length p)) e ∙ drop-append p y

append_same_length : (a b x y : Bytes) → length a ≡ length b → a ++ x ≡ b ++ y → (a ≡ b) × (x ≡ y)
append_same_length [] [] x y n e = (refl, e)
append_same_length [] (c ∷ b) x y n e = absurd (omega (arith, n))
append_same_length (d ∷ a) [] x y n e = absurd (omega (arith, n))
append_same_length (d ∷ a) (c ∷ b) x y n e =
    let tails = append_same_length a b x y (omega (arith, n)) (ap (drop 1) e) in
    let heads : d ≡ c = cc in (rw (heads, tails.0) refl, tails.1)

-- Two edges between hashes of one length have two keys.
pub hex-pair-injective :
    (a b c d : Bytes)
    → length a ≡ length c
    → hex a ++ (colon ∷ hex b) ≡ hex c ++ (colon ∷ hex d)
    → (a ≡ c) × (b ≡ d)
hex-pair-injective a b c d n e =
    let same : length (hex a) ≡ length (hex c) = omega (arith, n, length-hex a, length-hex c) in
    let parts = append_same_length (hex a) (hex c) (colon ∷ hex b) (colon ∷ hex d) same e in
    (hex-injective a c parts.0, hex-injective b d (ap (drop 1) parts.1))
