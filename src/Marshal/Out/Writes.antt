-- ===== src/Marshal/Out/Writes.antt =====
-- Each write of marshall stays in the buffer and appends its bytes.
use mit6_824_2012spring_yfs.Prelude.{
  ℕ, ◌+◌, ◌*◌, ◌%◌, ◌≤◌, ◌<◌, ◌≡◌, refl, true, some, List, [], ◌∷◌, ◌++◌, length, arith, At,
  At-append, At-update_above, At-update_below, At-copy_below, Option, if◌then◌else◌, leb, ltb,
  length-append, ◌>>=◌, At-copy, At-copy_above, update, copy,
}
use mit6_824_2012spring_yfs.Marshal.Out.{Marshall, rawbyte, rawbytes}

-- The buffer is there, and the head position is inside of it.
pub record IsOpen (m : Marshall) : Type 0 where
  pub alive : m.live ≡ true
  pub some_room : 0 < m.capa
  pub inside : m.ind ≤ m.capa

-- What a write of `bs` at the head of `m` comes to.
pub record Written (m m' : Marshall) (bs : List ℕ) : Type 0 where
  pub open_after : IsOpen m'
  pub moved : m'.ind ≡ m.ind + length bs
  pub bytes : At m'.buf m.ind bs
  pub kept : (i : ℕ) (cs : List ℕ) → i + length cs ≤ m.ind → At m.buf i cs → At m'.buf i cs
  pub above : (i : ℕ) (cs : List ℕ) → m.ind + length bs ≤ i → At m.buf i cs → At m'.buf i cs
  pub grows : m.capa ≤ m'.capa

-- `op` appends `bs` to every buffer that is open, and does not fault.
abbrev pub Writes : (Marshall → Option Marshall) → List ℕ → Type 0
Writes op bs = (m : Marshall) → IsOpen m → (m' : Marshall) × (op m ≡ some m') × Written m m' bs

abbrev pub byte_result : ℕ → Marshall → Marshall
byte_result x m = record m {
  capa = if leb m.capa m.ind then m.capa * 2 else m.capa;
  buf = update m.buf m.ind (x % 256);
  ind = m.ind + 1;
}

byte_room :
    (m : Marshall) → IsOpen m → m.ind + 1 ≤ (if leb m.capa m.ind then m.capa * 2 else m.capa)
byte_room m o = ground (arith, o.some_room, o.inside)

pub rawbyte_lem : (x : ℕ) (m : Marshall) → IsOpen m → rawbyte x m ≡ some (byte_result x m)
unfolding rawbyte
rawbyte_lem x m o = ground (arith, byte_room m o, o.alive)

pub byte_result-Written :
    (x : ℕ) (m : Marshall) → IsOpen m → Written m (byte_result x m) ((x % 256) ∷ [])
byte_result-Written x m o = record {
  open_after = record {
    alive = o.alive;
    some_room = omega (arith, byte_room m o);
    inside = byte_room m o;
  };
  moved = omega arith;
  bytes = (ground arith, tt);
  kept = λ i cs h a. At-update_above m.buf m.ind (x % 256) i cs h a;
  above = λ i cs h a. At-update_below m.buf m.ind (x % 256) i cs (omega arith) a;
  grows = ground arith;
}

pub rawbyte-Writes : (x : ℕ) → Writes (rawbyte x) ((x % 256) ∷ [])
rawbyte-Writes x m o = (byte_result x m, rawbyte_lem x m o, byte_result-Written x m o)

abbrev chunk_result : List ℕ → Marshall → Marshall
chunk_result p m = record m {
  capa =
      if ltb m.capa (m.ind + length p)
      then (if ltb (length p) m.capa then 2 * m.capa else m.capa + length p)
      else m.capa;
  buf = copy m.buf m.ind p;
  ind = m.ind + length p;
}

chunk_room : (p : List ℕ) (m : Marshall) → IsOpen m → m.ind + length p ≤ (chunk_result p m).capa
chunk_room p m o = ground (arith, o.some_room, o.inside)

rawbytes_lem : (p : List ℕ) (m : Marshall) → IsOpen m → rawbytes p m ≡ some (chunk_result p m)
unfolding rawbytes
rawbytes_lem p m o = ground (arith, chunk_room p m o, o.alive)

-- However long the string, growing the buffer once makes room for it.
pub rawbytes-Writes : (p : List ℕ) → Writes (rawbytes p) p
rawbytes-Writes p m o = (
  chunk_result p m,
  rawbytes_lem p m o,
  record {
    open_after = record {
      alive = o.alive;
      some_room = ground (arith, o.some_room);
      inside = chunk_room p m o;
    };
    moved = refl;
    bytes = At-copy m.buf m.ind p;
    kept = λ i cs h a. At-copy_above m.buf m.ind i p cs h a;
    above = λ i cs h a. At-copy_below m.buf m.ind i p cs h a;
    grows = ground arith;
  },
)

Written-trans :
    (m m₁ m₂ : Marshall) (bs cs : List ℕ)
    → Written m m₁ bs
    → Written m₁ m₂ cs
    → Written m m₂ (bs ++ cs)
Written-trans m m₁ m₂ bs cs w v = record {
  open_after = v.open_after;
  moved = omega (arith, length-append bs cs, w.moved, v.moved);
  bytes =
      At-append m₂.buf m.ind bs cs (v.kept m.ind bs (omega (arith, w.moved)) w.bytes)
        (rw (← w.moved) v.bytes);
  kept = λ i es h a. v.kept i es (omega (arith, w.moved)) (w.kept i es h a);
  above = λ i es h a.
      v.above i es (omega (arith, length-append bs cs, w.moved))
        (w.above i es (omega (arith, length-append bs cs)) a);
  grows = omega (arith, w.grows, v.grows);
}

pub nothing-Writes : Writes (λ m. some m) []
nothing-Writes m o = (
  m,
  refl,
  record {
    open_after = o;
    moved = omega arith;
    bytes = tt;
    kept = λ i cs h a. a;
    above = λ i cs h a. a;
    grows = omega arith;
  },
)

pub seq-Writes :
    (f g : Marshall → Option Marshall) (bs cs : List ℕ)
    → Writes f bs
    → Writes g cs
    → Writes (λ m. f m >>= g) (bs ++ cs)
seq-Writes f g bs cs wf wg m o =
    let (m₁, e, w) = wf m o in
    let (m₂, d, v) = wg m₁ w.open_after in (m₂, rw e d, Written-trans m m₁ m₂ bs cs w v)
