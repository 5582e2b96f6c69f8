-- ===== src/Nanopb/SetDefaults/Defaults.antt =====
-- What the default values of the fields of a message are, submessages included: a predicate on the
-- bytes of the message.
use app_card.Base.{
  subst, ap, length, length-append, ℕ, zero, suc, ◌+◌, ◌^◌, ◌≤◌, ◌<◌, ◌≡◌, refl, ◌∙◌, sym, ◌⊎◌,
  true, false, List, ◌∷◌, [], ◌++◌, ◌==◌, if◌then◌else◌, arith,
}
use app_card.Nanopb.Pb.{
  PbField, atype, htype, ltype, atype_static, atype_pointer, htype_optional, htype_repeated,
  htype_oneof, ltype_extension, ltype_submessage,
}
use app_card.Nanopb.Memory.{Memory}
use app_card.Nanopb.Memory.Fills.{IsZero}
use app_card.Nanopb.FieldIter.{prev_size}
use app_card.Nanopb.Runtime.{Runtime}
use app_card.Nanopb.SetDefaults.Layout.{
  data_at, size_at, stop, stop_all, stop_all-le, AllFrom, LaidOut,
}

-- A field whose flag is in the gap in front of it and its count there or in the array, in a message
-- from `lo` up to `hi`; its default value, if it has one, is elsewhere.
pub record IsPlaced (lo hi b : ℕ) (f : PbField) : Type 0 where
  pub no_extension : (ltype f.type == ltype_extension) ≡ false
  pub no_oneof : (htype f.type == htype_oneof) ≡ false
  pub fits : stop b f < 2 ^ 64
  pub flag :
      (htype f.type == htype_optional) ≡ true
      → (size_at b f == data_at b f) ≡ false
      → (b ≤ size_at b f) × (size_at b f + 1 ≤ data_at b f)
  pub count :
      (htype f.type == htype_repeated) ≡ true → (b ≤ size_at b f) × (size_at b f + 4 ≤ stop b f)
  pub constant :
      (ltype f.type == ltype_submessage) ≡ false
      → (f.ptr == 0) ≡ false
      → (f.ptr + f.data_size ≤ lo) ⊎ (hi ≤ f.ptr)

-- The submessages in the message are nested less than `depth` deep.
abbrev pub Placed : Runtime → ℕ → ℕ → ℕ → ℕ → PbField → Type 0
Placed rt lo hi zero b f = ⊥
Placed rt lo hi (suc depth) b f =
    IsPlaced lo hi b f
    × ((atype f.type == atype_static) ≡ true
        → (htype f.type == htype_repeated) ≡ false
        → (ltype f.type == ltype_submessage) ≡ true
        → LaidOut (Placed rt lo hi depth) (rt.tables f.ptr) (data_at b f)
            (data_at b f + f.data_size))

-- A field with its default, where `Value` is what a field of its own in the structure has.
pub record IsDefault (Value : Memory → Type 0) (b : ℕ) (f : PbField) (m : Memory) : Type 0 where
  pub pointer : (atype f.type == atype_pointer) ≡ true → IsZero 8 (data_at b f) m
  pub pointer_count :
      (atype f.type == atype_pointer) ≡ true
      → (htype f.type == htype_repeated) ≡ true
      → IsZero 4 (size_at b f) m
  pub flag :
      (atype f.type == atype_static) ≡ true
      → (htype f.type == htype_optional) ≡ true
      → (size_at b f == data_at b f) ≡ false
      → IsZero 1 (size_at b f) m
  pub count :
      (atype f.type == atype_static) ≡ true
      → (htype f.type == htype_repeated) ≡ true
      → IsZero 4 (size_at b f) m
  pub value :
      (atype f.type == atype_static) ≡ true → (htype f.type == htype_repeated) ≡ false → Value m

-- The fields of a table, each with the property at its place.
pub record EachField (Q : ℕ → PbField → Memory → Type 0) (table : List PbField) (b : ℕ) (m : Memory)
    : Type 0 where
  pub fields : List PbField
  pub end : PbField
  pub whole : table ≡ fields ++ (end ∷ [])
  pub each : AllFrom (λ a f. Q a f m) b fields

-- A byte of the default value in `c`, which is 0 where the table has none.
abbrev pub initial : Memory → PbField → ℕ → ℕ
initial c f i = if f.ptr == 0 then 0 else c (f.ptr + i)

-- The default value of a field at `a`.
abbrev pub Value : Runtime → Memory → ℕ → ℕ → PbField → Memory → Type 0
Value rt c zero a f m = ⊥
Value rt c (suc depth) a f m =
    ((ltype f.type == ltype_submessage) ≡ false
      → (i : ℕ) → i < f.data_size
      → m (a + i) ≡ initial c f i)
    × ((ltype f.type == ltype_submessage) ≡ true
        → EachField (λ b g. IsDefault (Value rt c depth (data_at b g) g) b g) (rt.tables f.ptr) a m)

abbrev pub Default : Runtime → Memory → ℕ → ℕ → PbField → Memory → Type 0
Default rt c depth b f = IsDefault (Value rt c depth (data_at b f) f) b f

IsZero-local :
    (n a e : ℕ) (m m' : Memory)
    → a + n ≤ e
    → ((x : ℕ) → x < e → m' x ≡ m x)
    → IsZero n a m
    → IsZero n a m'
IsZero-local n a e m m' inside same cleared i h =
    same (a + i) (omega (arith, h, inside)) ∙ cleared i h

-- What the field takes up.
pub static-size :
    (f : PbField)
    → (atype f.type == atype_static) ≡ true
    → (htype f.type == htype_repeated) ≡ false
    → prev_size f ≡ f.data_size
static-size f e r = ground (arith, e, r)

pub pointer-size : (f : PbField) → (atype f.type == atype_pointer) ≡ true → prev_size f ≡ 8
pointer-size f e = ground (arith, e)

same_front : (xs ys : List PbField) (x y : PbField) → xs ++ (x ∷ []) ≡ ys ++ (y ∷ []) → xs ≡ ys
same_front [] [] x y e = refl
same_front [] (z ∷ ys) x y e = absurd (omega (arith, ap length e, length-append ys (y ∷ [])))
same_front (z ∷ xs) [] x y e = absurd (omega (arith, ap length e, length-append xs (x ∷ [])))
same_front (z ∷ xs) (w ∷ ys) x y e =
    let rest = same_front xs ys x y (ground (arith, e)) in ground (arith, e, rest)

AllFrom-local :
    (P : ℕ → PbField → Type 0) (Q : ℕ → PbField → Memory → Type 0) (m m' : Memory)
    → ((b : ℕ) (f : PbField) → P b f → ((x : ℕ) → x < stop b f → m' x ≡ m x) → Q b f m → Q b f m')
    → (fs : List PbField) (b : ℕ) → AllFrom P b fs
    → ((x : ℕ) → x < stop_all b fs → m' x ≡ m x)
    → AllFrom (λ a f. Q a f m) b fs
    → AllFrom (λ a f. Q a f m') b fs
AllFrom-local P Q m m' local [] b h same q = tt
AllFrom-local P Q m m' local (f ∷ fs) b h same q = (
  local b f h.0 (λ x lt. same x (omega (arith, lt, stop_all-le (stop b f) fs))) q.0,
  AllFrom-local P Q m m' local fs (stop b f) h.1 same q.1,
)

EachField-local :
    (P : ℕ → PbField → Type 0) (Q : ℕ → PbField → Memory → Type 0) (m m' : Memory)
    (table : List PbField) (b e : ℕ)
    → ((a : ℕ) (f : PbField) → P a f → ((x : ℕ) → x < stop a f → m' x ≡ m x) → Q a f m → Q a f m')
    → LaidOut P table b e
    → ((x : ℕ) → x < e → m' x ≡ m x)
    → EachField Q table b m
    → EachField Q table b m'
EachField-local P Q m m' table b e local h same q =
    let fields = same_front q.fields h.fields q.end h.end (sym q.whole ∙ h.whole) in
    record {
      fields = h.fields;
      end = h.end;
      whole = h.whole;
      each =
          AllFrom-local P Q m m' local h.fields b h.each
            (λ x lt. same x (omega (arith, lt, h.inside)))
            (subst (λ (fs : List PbField). AllFrom (λ a f. Q a f m) b fs) fields q.each);
    }

pub Default-local :
    (rt : Runtime) (c : Memory) (lo hi depth b : ℕ) (f : PbField) (m m' : Memory)
    → Placed rt lo hi depth b f
    → ((x : ℕ) → x < stop b f → m' x ≡ m x)
    → Default rt c depth b f m
    → Default rt c depth b f m'
Default-local rt c lo hi zero b f m m' h same d = absurd h
Default-local rt c lo hi (suc depth) b f m m' (placed, inner) same d = record {
  pointer = λ e.
      IsZero-local 8 (data_at b f) (stop b f) m m' (omega (arith, pointer-size f e)) same
        (d.pointer e);
  pointer_count = λ e r.
      IsZero-local 4 (size_at b f) (stop b f) m m' ((placed.count r).1) same (d.pointer_count e r);
  flag = λ e o apart.
      IsZero-local 1 (size_at b f) (stop b f) m m' (omega (arith, (placed.flag o apart).1)) same
        (d.flag e o apart);
  count =
      λ e r. IsZero-local 4 (size_at b f) (stop b f) m m' ((placed.count r).1) same (d.count e r);
  value = λ e r.
      let size = static-size f e r in
      let v = d.value e r in
      (
        λ plain i lt. same (data_at b f + i) (omega (arith, lt, size)) ∙ v.0 plain i lt,
        λ sub.
            EachField-local (Placed rt lo hi depth) (Default rt c depth) m m' (rt.tables f.ptr)
              (data_at b f) (data_at b f + f.data_size)
              (λ a g h lt q. Default-local rt c lo hi depth a g m m' h lt q) (inner e r sub)
              (λ x lt. same x (omega (arith, lt, size))) (v.1 sub),
      );
}
