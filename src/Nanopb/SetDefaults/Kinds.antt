-- ===== src/Nanopb/SetDefaults/Kinds.antt =====
-- The default value of a field in the structure and of an allocated one.
use app_card.Base.{
  ℕ, suc, ◌+◌, ◌≤◌, ◌≡◌, refl, ◌∙◌, inl, inr, true, false, not, ◌&&◌, Bool-cases, List, ◌==◌, arith,
  ◌>>◌,
}
use app_card.Nanopb.Pb.{
  PbField, atype, htype, ltype, atype_static, atype_pointer, htype_optional, htype_repeated,
  ltype_submessage,
}
use app_card.Nanopb.Memory.{Memory, store, clear, store_bytes, load_bytes}
use app_card.Nanopb.Memory.Fills.{
  Outside, IsZero, Outside-wider, Outside-trans, store-Outside, store-IsZero, IsZero-store,
  clear-Outside, clear-IsZero, copy-Outside, copied_byte,
}
use app_card.Nanopb.FieldIter.{FieldIter}
use app_card.Nanopb.Runtime.{Runtime, Effect, assign}
use app_card.Nanopb.SetDefaults.{default_static, default_pointer, init_data}
use app_card.Nanopb.SetDefaults.Layout.{data_at, size_at, stop, StandsBehind, LaidOut, Leaves}
use app_card.Nanopb.SetDefaults.Defaults.{
  Placed, EachField, Value, Default, static-size, pointer-size,
}

-- An assignment of 0 and then an effect, in a part of memory each.
clears_first :
    (n p b e : ℕ) (k : Effect) (Q : Memory → Type 0) (m : Memory)
    → b ≤ p
    → p + n ≤ e
    → Leaves k Q b e (store n 0 m p)
    → Leaves (assign n 0 p >> k) Q b e m
clears_first n p b e k Q m lo hi (m', done, holds, outside) = (
  m',
  done,
  holds,
  Outside-trans b e m (store n 0 m p) m'
      (Outside-wider p (p + n) b e m (store n 0 m p) lo hi (store-Outside n 0 m p)) outside,
)

module _ (rt : Runtime) (c : Memory) (lo hi depth : ℕ) (message : List PbField → ℕ → Effect)
    (sets : (table : List PbField) (b e : ℕ) (m : Memory)
      → LaidOut (Placed rt lo hi depth) table b e
      → lo ≤ b
      → e ≤ hi
      → Outside lo hi c m
      → Leaves (message table b) (EachField (Default rt c depth) table b) b e m)
    (b : ℕ) (f : PbField) (placed : Placed rt lo hi (suc depth) b f) (above : lo ≤ b)
    (below : stop b f ≤ hi) where
  init_data-Leaves :
      (m : Memory)
      → (atype f.type == atype_static) ≡ true
      → (htype f.type == htype_repeated) ≡ false
      → Outside lo hi c m
      → Leaves
          (init_data rt message f (data_at b f))
          (Value rt c (suc depth) (data_at b f) f)
          (data_at b f)
          (data_at b f + f.data_size)
          m
  init_data-Leaves m e r keeps = elim (Bool-cases (ltype f.type == ltype_submessage)) [
    | inl sub ↦
        let (m', done, each, outside) =
          sets (rt.tables f.ptr) (data_at b f) (data_at b f + f.data_size) m (placed.1 e r sub)
            (omega (arith, above)) (omega (arith, below, static-size f e r)) keeps in
        (m', rw sub done, (λ plain. absurd (ground (arith, plain, sub)), λ _. each), outside)
    | inr plain ↦ elim (Bool-cases (f.ptr == 0)) [
      | inl none ↦ (
        clear f.data_size m (data_at b f),
        rw (plain, none) refl,
        (
          λ _ i lt. rw none (clear-IsZero f.data_size m (data_at b f) i lt),
          λ sub. absurd (ground (arith, plain, sub)),
        ),
        clear-Outside f.data_size m (data_at b f),
      )
      | inr given ↦ (
        store_bytes (load_bytes f.data_size m f.ptr) m (data_at b f),
        rw (plain, given) refl,
        (
          λ _ i lt. rw given (
              copied_byte f.data_size m m f.ptr (data_at b f) i lt
              ∙ keeps (f.ptr + i) (elim (placed.0.constant plain given) [
                | inl front ↦ inl (omega (arith, front, lt))
                | inr behind ↦ inr (omega (arith, behind))
              ])),
          λ sub. absurd (ground (arith, plain, sub)),
        ),
        copy-Outside f.data_size m m f.ptr (data_at b f),
      )
    ]
  ]

  -- A field of its own in the structure, without an array.
  single :
      (m : Memory)
      → (atype f.type == atype_static) ≡ true
      → (htype f.type == htype_repeated) ≡ false
      → ((htype f.type == htype_optional) ≡ true
          → (size_at b f == data_at b f) ≡ false
          → IsZero 1 (size_at b f) m)
      → Value rt c (suc depth) (data_at b f) f m
      → Default rt c (suc depth) b f m
  single m e r flag value = record {
    pointer = λ p. absurd (ground (arith, e, p));
    pointer_count = λ p _. absurd (ground (arith, e, p));
    flag = λ _. flag;
    count = λ _ r'. absurd (ground (arith, r, r'));
    value = λ _ _. value;
  }

  flagged-Leaves :
      (m : Memory)
      → (atype f.type == atype_static) ≡ true
      → (htype f.type == htype_optional) ≡ true
      → (size_at b f == data_at b f) ≡ false
      → Outside lo hi c m
      → Leaves
          (assign 1 0 (size_at b f) >> init_data rt message f (data_at b f))
          (Default rt c (suc depth) b f)
          b
          (stop b f)
          m
  flagged-Leaves m e o apart keeps =
      let (from, upto) = placed.0.flag o apart in
      let r : (htype f.type == htype_repeated) ≡ false = ground (arith, o) in
      let size = static-size f e r in
      let m1 = store 1 0 m (size_at b f) in
      let outside1 = store-Outside 1 0 m (size_at b f) in
      let (m', done, value, outside) = init_data-Leaves m1 e r (
        Outside-trans lo hi c m m1 keeps (
          Outside-wider (size_at b f) (size_at b f + 1) lo hi m m1 (omega (arith, above, from))
            (omega (arith, upto, below)) outside1)) in
      clears_first 1 (size_at b f) b (stop b f) (init_data rt message f (data_at b f))
        (Default rt c (suc depth) b f) m from (omega (arith, upto))
        (
          m',
          done,
          single m' e r
              (λ _ _ i lt.
                outside (size_at b f + i) (inl (omega (arith, lt, upto)))
                ∙ store-IsZero 1 m (size_at b f) i lt)
              value,
          Outside-wider (data_at b f) (data_at b f + f.data_size) b (stop b f) m1 m' (omega arith)
              (omega (arith, size)) outside,
        )

  pub default_static-Leaves :
      (it : FieldIter) (m : Memory)
      → StandsBehind b f it
      → (atype f.type == atype_static) ≡ true
      → Outside lo hi c m
      → Leaves (default_static rt message f it) (Default rt c (suc depth) b f) b (stop b f) m
  unfolding default_static
  default_static-Leaves it m stands e keeps =
      rw (stands.address, stands.size, placed.0.no_oneof)
        (elim (Bool-cases (htype f.type == htype_repeated)) [
          | inl r ↦
              let o : (htype f.type == htype_optional) ≡ false = ground (arith, r) in
              let (from, upto) = placed.0.count r in
              (
                store 4 0 m (size_at b f),
                rw (o, r) refl,
                record {
                  pointer = λ p. absurd (ground (arith, e, p));
                  pointer_count = λ p _. absurd (ground (arith, e, p));
                  flag = λ _ o'. absurd (ground (arith, o, o'));
                  count = λ _ _. store-IsZero 4 m (size_at b f);
                  value = λ _ r'. absurd (ground (arith, r, r'));
                },
                Outside-wider (size_at b f) (size_at b f + 4) b (stop b f) m
                    (store 4 0 m (size_at b f)) from upto (store-Outside 4 0 m (size_at b f)),
              )
          | inr r ↦
              elim (Bool-cases
                (htype f.type == htype_optional && not (size_at b f == data_at b f))) [
                  | inl flag ↦
                      rw flag
                        (flagged-Leaves m e (ground (arith, flag)) (ground (arith, flag)) keeps)
                  | inr plain ↦
                      let (m', done, value, outside) = init_data-Leaves m e r keeps in
                      (
                        m',
                        rw (plain, r) done,
                        single m' e r (λ o apart. absurd (ground (arith, plain, o, apart))) value,
                        Outside-wider (data_at b f) (data_at b f + f.data_size) b (stop b f) m m'
                            (omega arith) (omega (arith, static-size f e r)) outside,
                      )
                ]
        ])

  pub default_pointer-Leaves :
      (it : FieldIter) (m : Memory)
      → StandsBehind b f it
      → (atype f.type == atype_pointer) ≡ true
      → Leaves (default_pointer rt f it) (Default rt c (suc depth) b f) b (stop b f) m
  unfolding default_pointer
  default_pointer-Leaves it m stands e =
      let m1 = store 8 0 m (data_at b f) in
      let size = pointer-size f e in
      let outside1 =
        Outside-wider (data_at b f) (data_at b f + 8) b (stop b f) m m1 (omega arith)
          (omega (arith, size)) (store-Outside 8 0 m (data_at b f)) in
      rw (stands.address, stands.size, placed.0.no_oneof)
        (elim (Bool-cases (htype f.type == htype_repeated)) [
          | inl r ↦
              let (from, upto) = placed.0.count r in
              let m2 = store 4 0 m1 (size_at b f) in
              let outside2 = store-Outside 4 0 m1 (size_at b f) in
              (
                m2,
                rw r refl,
                record {
                  pointer = λ _.
                      IsZero-store 8 4 m1 (data_at b f) (size_at b f)
                        (store-IsZero 8 m (data_at b f));
                  pointer_count = λ _ _. store-IsZero 4 m1 (size_at b f);
                  flag = λ s. absurd (ground (arith, e, s));
                  count = λ s. absurd (ground (arith, e, s));
                  value = λ s. absurd (ground (arith, e, s));
                },
                Outside-trans b (stop b f) m m1 m2 outside1 (
                    Outside-wider (size_at b f) (size_at b f + 4) b (stop b f) m1 m2 from upto
                      outside2),
              )
          | inr r ↦ (
            m1,
            rw r refl,
            record {
              pointer = λ _. store-IsZero 8 m (data_at b f);
              pointer_count = λ _ r'. absurd (ground (arith, r, r'));
              flag = λ s. absurd (ground (arith, e, s));
              count = λ s. absurd (ground (arith, e, s));
              value = λ s. absurd (ground (arith, e, s));
            },
            outside1,
          )
        ])
