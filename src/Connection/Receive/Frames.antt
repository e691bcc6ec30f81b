-- ===== src/Connection/Receive/Frames.antt =====
-- Messages in a stream of bytes, each with its size in front, and that a stream is cut in one way.
use mit6_824_2012spring_yfs.Prelude.{
  ℕ, zero, suc, ◌+◌, ◌^◌, ◌≤◌, ◌<◌, ◌≡◌, refl, sym, ap, ◌∙◌, List, [], ◌∷◌, ◌++◌, length,
  length-append, take, All, append_assoc, arith,
}
use mit6_824_2012spring_yfs.Connection.Whole.{message}
use mit6_824_2012spring_yfs.Connection.Receive.{ntohl}

abbrev pub concat : List (List ℕ) → List ℕ
concat [] = []
concat (m ∷ ms) = m ++ concat ms

pub concat-append : (ms ns : List (List ℕ)) → concat (ms ++ ns) ≡ concat ms ++ concat ns
concat-append [] ns = refl
concat-append (m ∷ ms) ns =
    ap (λ (z : List ℕ). m ++ z) (concat-append ms ns) ∙ sym (append_assoc m (concat ms) (concat ns))

-- The first four bytes are the length of the whole.
pub record IsFrame (m : List ℕ) : Type 0 where
  pub size : ntohl 0 (take 4 m) ≡ length m
  pub has_size : 4 ≤ length m

pub take_front : (n : ℕ) (xs ys : List ℕ) → n ≤ length xs → take n (xs ++ ys) ≡ take n xs
take_front zero xs ys h = refl
take_front (suc n) [] ys h = absurd (omega (arith, h))
take_front (suc n) (x ∷ xs) ys h =
    ap (λ (z : List ℕ). x ∷ z) (take_front n xs ys (omega (arith, h)))

same_length :
    (xs ys us vs : List ℕ) → length xs ≡ length ys → xs ++ us ≡ ys ++ vs → (xs ≡ ys) × (us ≡ vs)
same_length [] [] us vs l e = (refl, e)
same_length [] (y ∷ ys) us vs l e = absurd (omega (arith, l))
same_length (x ∷ xs) [] us vs l e = absurd (omega (arith, l))
same_length (x ∷ xs) (y ∷ ys) us vs l e =
    let p : x ≡ y = cc in
    let q : xs ++ us ≡ ys ++ vs = cc in
    let (a, b) = same_length xs ys us vs (omega (arith, l)) q in (rw (p, a) refl, b)

-- A stream that starts with two frames starts with the same frame.
pub IsFrame-same :
    (m n us vs : List ℕ) → IsFrame m → IsFrame n → m ++ us ≡ n ++ vs → (m ≡ n) × (us ≡ vs)
IsFrame-same m n us vs f g e =
    let p : take 4 m ≡ take 4 n =
      sym (take_front 4 m us f.has_size) ∙ ap (take 4) e ∙ take_front 4 n vs g.has_size in
    same_length m n us vs (sym f.size ∙ ap (ntohl 0) p ∙ g.size) e

-- The frames that have been cut off a stream are the first of the frames that it is made of.
pub frames_first :
    (ms ns : List (List ℕ)) (rest : List ℕ)
    → All IsFrame ms
    → All IsFrame ns
    → concat ms ++ rest ≡ concat ns
    → (later : List (List ℕ)) × (ns ≡ ms ++ later) × (concat later ≡ rest)
frames_first [] ns rest f g e = (ns, refl, sym e)
frames_first (m ∷ ms) [] rest f g e = absurd (
    omega (
      arith,
      f.0.has_size,
      ap length e,
      length-append (m ++ concat ms) rest,
      length-append m (concat ms),
    ))
frames_first (m ∷ ms) (n ∷ ns) rest f g e =
    let (p, q) =
      IsFrame-same m n (concat ms ++ rest) (concat ns) f.0 g.0
        (sym (append_assoc m (concat ms) rest) ∙ e) in
    let (l, a, b) = frames_first ms ns rest f.1 g.1 q in
    (l, ap (λ (z : List ℕ). z ∷ ns) (sym p) ∙ ap (λ (z : List (List ℕ)). m ∷ z) a, b)

pub message-IsFrame : (bs : List ℕ) → length bs + 4 < 2 ^ 32 → IsFrame (message (length bs + 4) bs)
message-IsFrame bs h = record { size = omega arith; has_size = omega arith }
