-- ===== src/Call/Handlers/Pairs.antt =====
-- A handler of several arguments is a handler of their pair.
use mit6_824_2012spring_yfs.Prelude.{
  ℕ, ◌≡◌, refl, ◌∙◌, Option, none, some, ◌>>=◌, bind_assoc, bind_ext,
}
use mit6_824_2012spring_yfs.Marshal.Out.{Marshall}
use mit6_824_2012spring_yfs.Marshal.In.{Unmarshall}
use mit6_824_2012spring_yfs.Marshal.Codec.{Codec, pair_codec, get_pair}
use mit6_824_2012spring_yfs.Call.Handlers.{answer, fn_1, fn_2, fn_3, fn_4, fn_5, fn_6, fn_7}

get_pair-then :
    {A B C : Type 0} (x : Option (A × Unmarshall)) (g : Unmarshall → Option (B × Unmarshall))
    (k : (A × B) × Unmarshall → Option C)
    → ((x >>= λ (p : A × Unmarshall). g p.1 >>= λ (q : B × Unmarshall). some ((p.0, q.0), q.1))
        >>= k)
      ≡ (x >>= λ (p : A × Unmarshall). g p.1 >>= λ (q : B × Unmarshall). k ((p.0, q.0), q.1))
get_pair-then none g k = refl
get_pair-then (some p) g k = bind_assoc (g p.1) (λ q. some ((p.0, q.0), q.1)) k

-- The reading of several arguments by a handler.
fn_1-pair :
    {S R A B : Type 0} (d : Codec R) (c : Codec A) (e : Codec B) (meth : A × B → S → ℕ × R × S)
    (sob : S) (args : Unmarshall) (ret : Marshall)
    → fn_1 d (pair_codec c e) meth sob args ret
      ≡ (c.get args >>= λ (p : A × Unmarshall). fn_1 d e (λ b. meth (p.0, b)) sob p.1 ret)
unfolding fn_1 get_pair
fn_1-pair d c e meth sob args ret =
    get_pair-then (c.get args) e.get (λ q. answer d (meth q.0) sob q.1 ret)

-- A handler of 2 arguments is a handler of their pair.
pub fn_2-pair :
    {S R A₁ A₂ : Type 0} (d : Codec R) (c₁ : Codec A₁) (c₂ : Codec A₂)
    (meth : A₁ → A₂ → S → ℕ × R × S) (sob : S) (args : Unmarshall) (ret : Marshall)
    → fn_1 d (pair_codec c₁ c₂) (λ (p : A₁ × A₂). meth p.0 p.1) sob args ret
      ≡ fn_2 d c₁ c₂ meth sob args ret
unfolding fn_2 fn_1
fn_2-pair d c₁ c₂ meth sob args ret = fn_1-pair d c₁ c₂ (λ p. meth p.0 p.1) sob args ret

-- A handler of 3 arguments is a handler of their pair.
pub fn_3-pair :
    {S R A₁ A₂ A₃ : Type 0} (d : Codec R) (c₁ : Codec A₁) (c₂ : Codec A₂) (c₃ : Codec A₃)
    (meth : A₁ → A₂ → A₃ → S → ℕ × R × S) (sob : S) (args : Unmarshall) (ret : Marshall)
    → fn_1 d
        (pair_codec c₁ (pair_codec c₂ c₃))
        (λ (p : A₁ × (A₂ × A₃)). meth p.0 p.1.0 p.1.1)
        sob
        args
        ret
      ≡ fn_3 d c₁ c₂ c₃ meth sob args ret
unfolding fn_3 fn_2
fn_3-pair d c₁ c₂ c₃ meth sob args ret =
    fn_1-pair d c₁ (pair_codec c₂ c₃) (λ p. meth p.0 p.1.0 p.1.1) sob args ret
    ∙ bind_ext (c₁.get args) _ _ (λ p. fn_2-pair d c₂ c₃ (λ a₂ a₃. meth p.0 a₂ a₃) sob p.1 ret)

-- A handler of 4 arguments is a handler of their pair.
pub fn_4-pair :
    {S R A₁ A₂ A₃ A₄ : Type 0} (d : Codec R) (c₁ : Codec A₁) (c₂ : Codec A₂) (c₃ : Codec A₃)
    (c₄ : Codec A₄) (meth : A₁ → A₂ → A₃ → A₄ → S → ℕ × R × S) (sob : S) (args : Unmarshall)
    (ret : Marshall)
    → fn_1 d
        (pair_codec c₁ (pair_codec c₂ (pair_codec c₃ c₄)))
        (λ (p : A₁ × (A₂ × (A₃ × A₄))). meth p.0 p.1.0 p.1.1.0 p.1.1.1)
        sob
        args
        ret
      ≡ fn_4 d c₁ c₂ c₃ c₄ meth sob args ret
unfolding fn_4 fn_3
fn_4-pair d c₁ c₂ c₃ c₄ meth sob args ret =
    fn_1-pair d c₁ (pair_codec c₂ (pair_codec c₃ c₄)) (λ p. meth p.0 p.1.0 p.1.1.0 p.1.1.1) sob args
      ret
    ∙ bind_ext (c₁.get args) _ _
        (λ p. fn_3-pair d c₂ c₃ c₄ (λ a₂ a₃ a₄. meth p.0 a₂ a₃ a₄) sob p.1 ret)

-- A handler of 5 arguments is a handler of their pair.
pub fn_5-pair :
    {S R A₁ A₂ A₃ A₄ A₅ : Type 0} (d : Codec R) (c₁ : Codec A₁) (c₂ : Codec A₂) (c₃ : Codec A₃)
    (c₄ : Codec A₄) (c₅ : Codec A₅) (meth : A₁ → A₂ → A₃ → A₄ → A₅ → S → ℕ × R × S) (sob : S)
    (args : Unmarshall) (ret : Marshall)
    → fn_1 d
        (pair_codec c₁ (pair_codec c₂ (pair_codec c₃ (pair_codec c₄ c₅))))
        (λ (p : A₁ × (A₂ × (A₃ × (A₄ × A₅)))). meth p.0 p.1.0 p.1.1.0 p.1.1.1.0 p.1.1.1.1)
        sob
        args
        ret
      ≡ fn_5 d c₁ c₂ c₃ c₄ c₅ meth sob args ret
unfolding fn_5 fn_4
fn_5-pair d c₁ c₂ c₃ c₄ c₅ meth sob args ret =
    fn_1-pair d c₁ (pair_codec c₂ (pair_codec c₃ (pair_codec c₄ c₅)))
      (λ p. meth p.0 p.1.0 p.1.1.0 p.1.1.1.0 p.1.1.1.1) sob args ret
    ∙ bind_ext (c₁.get args) _ _
        (λ p. fn_4-pair d c₂ c₃ c₄ c₅ (λ a₂ a₃ a₄ a₅. meth p.0 a₂ a₃ a₄ a₅) sob p.1 ret)

-- A handler of 6 arguments is a handler of their pair.
pub fn_6-pair :
    {S R A₁ A₂ A₃ A₄ A₅ A₆ : Type 0} (d : Codec R) (c₁ : Codec A₁) (c₂ : Codec A₂) (c₃ : Codec A₃)
    (c₄ : Codec A₄) (c₅ : Codec A₅) (c₆ : Codec A₆)
    (meth : A₁ → A₂ → A₃ → A₄ → A₅ → A₆ → S → ℕ × R × S) (sob : S) (args : Unmarshall)
    (ret : Marshall)
    → fn_1 d
        (pair_codec c₁ (pair_codec c₂ (pair_codec c₃ (pair_codec c₄ (pair_codec c₅ c₆)))))
        (λ (p : A₁ × (A₂ × (A₃ × (A₄ × (A₅ × A₆))))).
          meth p.0 p.1.0 p.1.1.0 p.1.1.1.0 p.1.1.1.1.0 p.1.1.1.1.1)
        sob
        args
        ret
      ≡ fn_6 d c₁ c₂ c₃ c₄ c₅ c₆ meth sob args ret
unfolding fn_6 fn_5
fn_6-pair d c₁ c₂ c₃ c₄ c₅ c₆ meth sob args ret =
    fn_1-pair d c₁ (pair_codec c₂ (pair_codec c₃ (pair_codec c₄ (pair_codec c₅ c₆))))
      (λ p. meth p.0 p.1.0 p.1.1.0 p.1.1.1.0 p.1.1.1.1.0 p.1.1.1.1.1) sob args ret
    ∙ bind_ext (c₁.get args) _ _
        (λ p. fn_5-pair d c₂ c₃ c₄ c₅ c₆ (λ a₂ a₃ a₄ a₅ a₆. meth p.0 a₂ a₃ a₄ a₅ a₆) sob p.1 ret)

-- A handler of seven arguments reads, checks and answers as a handler of one argument does whose
-- type is the nested pair of the seven.
pub fn_7-pair :
    {S R A₁ A₂ A₃ A₄ A₅ A₆ A₇ : Type 0} (d : Codec R) (c₁ : Codec A₁) (c₂ : Codec A₂)
    (c₃ : Codec A₃) (c₄ : Codec A₄) (c₅ : Codec A₅) (c₆ : Codec A₆) (c₇ : Codec A₇)
    (meth : A₁ → A₂ → A₃ → A₄ → A₅ → A₆ → A₇ → S → ℕ × R × S) (sob : S) (args : Unmarshall)
    (ret : Marshall)
    → fn_1 d
        (pair_codec c₁
          (pair_codec c₂ (pair_codec c₃ (pair_codec c₄ (pair_codec c₅ (pair_codec c₆ c₇))))))
        (λ (p : A₁ × (A₂ × (A₃ × (A₄ × (A₅ × (A₆ × A₇)))))).
          meth p.0 p.1.0 p.1.1.0 p.1.1.1.0 p.1.1.1.1.0 p.1.1.1.1.1.0 p.1.1.1.1.1.1)
        sob
        args
        ret
      ≡ fn_7 d c₁ c₂ c₃ c₄ c₅ c₆ c₇ meth sob args ret
unfolding fn_7 fn_6
fn_7-pair d c₁ c₂ c₃ c₄ c₅ c₆ c₇ meth sob args ret =
    fn_1-pair d c₁
      (pair_codec c₂ (pair_codec c₃ (pair_codec c₄ (pair_codec c₅ (pair_codec c₆ c₇))))) _ sob args
      ret
    ∙ bind_ext (c₁.get args) _ _ (λ p.
      fn_6-pair d c₂ c₃ c₄ c₅ c₆ c₇ (λ a₂ a₃ a₄ a₅ a₆ a₇. meth p.0 a₂ a₃ a₄ a₅ a₆ a₇) sob p.1 ret)
