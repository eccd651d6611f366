-- ===== src/Cvar/Protect.antt =====
-- Who may change a console variable of src/cvar.c, and when.
use co_d4x_client_pub.Common.{
  ℕ, zero, suc, ◌+◌, ◌%◌, ◌≡◌, ◌⊎◌, refl, ap, ◌∙◌, Bool, Bool-cases, inl, inr, true, false, Option,
  none, some, List, [], ◌∷◌, ◌==◌, leb, length, arith, All, subst,
}
use co_d4x_client_pub.Text.{same}
use co_d4x_client_pub.Cvar.{
  CvarType, SetSource, Value, Cvar, World, Floats, word, has_flag, cvar_latch, cvar_rom, cvar_init,
  cvar_cheat, is_remote, is_protected, values_equal, vector_equal, value_in_domain,
  can_change_value, set_checked, set_by, set_variant,
}
use co_d4x_client_pub.Cvar.Domain.{InDomain, set_variant-Set, run}

abbrev or_else : Option (World × Cvar) → World × Cvar → World × Cvar
or_else none d = d
or_else (some r) d = r

same_sym : (s t : List ℕ) → same s t ≡ same t s
same_sym [] [] = refl
same_sym [] (d ∷ t) = refl
same_sym (c ∷ s) [] = refl
same_sym (c ∷ s) (d ∷ t) = ground (arith, same_sym s t)

equal_sym : (m n : ℕ) → (m == n) ≡ (n == m)
equal_sym m n = ground arith

module _ (floats : Floats) (eq_sym : (a b : ℕ) → floats.eq a b ≡ floats.eq b a) where
  vector_equal_sym :
      (a b : Value) (i n : ℕ) → vector_equal floats a b i n ≡ vector_equal floats b a i n
  vector_equal_sym a b i zero = refl
  vector_equal_sym a b i (suc n) =
      rw (eq_sym (word b i) (word a i), vector_equal_sym a b (i + 1) n) refl

  values_equal_sym :
      (kind : CvarType) (a b : Value) → values_equal floats kind a b ≡ values_equal floats kind b a
  unfolding values_equal
  values_equal_sym CvarType.bool a b = equal_sym (word a 0 % 256) (word b 0 % 256)
  values_equal_sym CvarType.float a b = eq_sym (word b 0) (word a 0)
  values_equal_sym CvarType.vec2 a b = vector_equal_sym a b 0 2
  values_equal_sym CvarType.vec3 a b = vector_equal_sym a b 0 3
  values_equal_sym CvarType.vec4 a b = vector_equal_sym a b 0 4
  values_equal_sym CvarType.int a b = equal_sym (word a 0) (word b 0)
  values_equal_sym CvarType.enum a b = equal_sym (word a 0) (word b 0)
  values_equal_sym CvarType.string a b = same_sym a.text b.text
  values_equal_sym CvarType.color a b = equal_sym (word a 0) (word b 0)

  -- A variable that the console and scripts cannot change, but for its latched value.
  abbrev pub IsSealed : World → Cvar → Type 0
  IsSealed w c =
      (has_flag c.flags cvar_rom ≡ true)
      ⊎ ((has_flag c.flags cvar_init ≡ true)
          ⊎ (((has_flag c.flags cvar_cheat ≡ true) × (w.cheats ≡ false))
              ⊎ (has_flag c.flags cvar_latch ≡ true)))

  IsSealed-cases :
      (w : World) (c : Cvar) (source : SetSource)
      → is_remote source ≡ true
      → IsSealed w c
      → (is_protected w c source ≡ true) ⊎ (has_flag c.flags cvar_latch ≡ true)
  IsSealed-cases w c source remote (inl rom) = inl (ground (arith, rom))
  IsSealed-cases w c source remote (inr (inl init)) = inl (ground (arith, init))
  IsSealed-cases w c source remote (inr (inr (inl (cheat, off)))) =
      inl (ground (arith, cheat, off, remote))
  IsSealed-cases w c source remote (inr (inr (inr latch))) = inr latch

  -- The value of the variable, its flags and the cheats are as before.
  pub record Kept (w : World) (c : Cvar) (r : World × Cvar) : Type 0 where
    pub same_value : r.1.current ≡ c.current
    pub same_flags : r.1.flags ≡ c.flags
    pub same_cheats : r.0.cheats ≡ w.cheats

  unchanged : (w : World) (c : Cvar) → Kept w c (w, c)
  unchanged w c = record { same_value = refl; same_flags = refl; same_cheats = refl }

  equal_value :
      (w : World) (c : Cvar) (v : Value) (source : SetSource)
      → (is_protected w c source ≡ true) ⊎ (has_flag c.flags cvar_latch ≡ true)
      → has_flag c.flags cvar_latch ≡ false
      → can_change_value floats w c v source ≡ true
      → values_equal floats c.kind c.current v ≡ true
  unfolding can_change_value
  equal_value w c v source (inr latch) direct accepted = absurd (ground (arith, latch, direct))
  equal_value w c v source (inl protected) direct accepted =
      values_equal_sym c.kind c.current v ∙ ground (arith, accepted, protected)

  checked-Kept :
      (w : World) (c : Cvar) (v : Value) (source : SetSource)
      → is_remote source ≡ true
      → IsSealed w c
      → Kept w c (set_checked floats w c v source)
  checked-Kept w c v source remote s = elim (Bool-cases (can_change_value floats w c v source)) [
    | inr refused ↦ rw (remote, refused) (unchanged w c)
    | inl accepted ↦ elim (Bool-cases (has_flag c.flags cvar_latch)) [
      | inl latch ↦
          rw (remote, accepted, latch)
            (record { same_value = refl; same_flags = refl; same_cheats = refl })
      | inr direct ↦
          rw
            (
              remote,
              accepted,
              direct,
              equal_value w c v source (IsSealed-cases w c source remote s) direct accepted,
            )
            (record { same_value = refl; same_flags = refl; same_cheats = refl })
    ]
  ]

  same_result :
      (w : World) (c : Cvar) (p r : World × Cvar) → Kept w c p → some p ≡ some r → Kept w c r
  same_result w c p r k e = subst (λ q. Kept w c q) (ap (λ o. or_else o p) e) k

  set_by-Kept :
      (nameless valid : Bool) (kind : CvarType) (w : World) (c : Cvar) (accepted : World × Cvar)
      (retry : Option (World × Cvar)) (r : World × Cvar)
      → (valid ≡ true → Kept w c accepted)
      → (retry ≡ some r → Kept w c r)
      → set_by nameless valid kind (w, c) accepted retry ≡ some r
      → Kept w c r
  set_by-Kept true valid kind w c accepted retry r h k e =
      same_result w c (w, c) r (unchanged w c) e
  set_by-Kept false true kind w c accepted retry r h k e = same_result w c accepted r (h refl) e
  set_by-Kept false false CvarType.enum w c accepted retry r h k e = k e
  set_by-Kept false false CvarType.bool w c accepted retry r h k e =
      same_result w c (w, c) r (unchanged w c) e
  set_by-Kept false false CvarType.float w c accepted retry r h k e =
      same_result w c (w, c) r (unchanged w c) e
  set_by-Kept false false CvarType.vec2 w c accepted retry r h k e =
      same_result w c (w, c) r (unchanged w c) e
  set_by-Kept false false CvarType.vec3 w c accepted retry r h k e =
      same_result w c (w, c) r (unchanged w c) e
  set_by-Kept false false CvarType.vec4 w c accepted retry r h k e =
      same_result w c (w, c) r (unchanged w c) e
  set_by-Kept false false CvarType.int w c accepted retry r h k e =
      same_result w c (w, c) r (unchanged w c) e
  set_by-Kept false false CvarType.string w c accepted retry r h k e =
      same_result w c (w, c) r (unchanged w c) e
  set_by-Kept false false CvarType.color w c accepted retry r h k e =
      same_result w c (w, c) r (unchanged w c) e

  pub set_variant-Kept :
      (n : ℕ) (w : World) (c : Cvar) (v : Value) (source : SetSource) (r : World × Cvar)
      → is_remote source ≡ true
      → IsSealed w c
      → set_variant floats n w c v source ≡ some r
      → Kept w c r
  set_variant-Kept zero w c v source r remote s e = absurd (ground (arith, e))
  set_variant-Kept (suc n) w c v source r remote s e =
      set_by-Kept (leb (length c.name) 0) (value_in_domain floats c.kind v c.limits) c.kind w c
        (set_checked floats w c v source) (set_variant floats n w c c.reset source) r
        (λ h. checked-Kept w c v source remote s) (set_variant-Kept n w c c.reset source r remote s)
        e

  -- Calls from the console and from scripts.
  abbrev pub AreRemote : List (Value × SetSource) → Type 0
  AreRemote calls = All (λ (p : Value × SetSource). is_remote p.1 ≡ true) calls

  IsSealed-again :
      (w : World) (c : Cvar) (r : World × Cvar) → Kept w c r → IsSealed w c → IsSealed r.0 r.1
  IsSealed-again w c r k (inl rom) = inl (rw k.same_flags rom)
  IsSealed-again w c r k (inr (inl init)) = inr (inl (rw k.same_flags init))
  IsSealed-again w c r k (inr (inr (inl (cheat, off)))) =
      inr (inr (inl (rw k.same_flags cheat, rw k.same_cheats off)))
  IsSealed-again w c r k (inr (inr (inr latch))) = inr (inr (inr (rw k.same_flags latch)))

  -- Whatever values the console and scripts set on a variable that is read only, that is set at the
  -- start only, that is a cheat while cheats are off or that changes at a restart only, the calls end,
  -- and its value is in the end what it was, if the values lay in the domain at the beginning.
  -- Equality of floats is symmetric.
  pub run-Kept :
      (calls : List (Value × SetSource)) (w : World) (c : Cvar)
      → InDomain floats c
      → IsSealed w c
      → AreRemote calls
      → (r : World × Cvar) × (run floats w c calls ≡ some r) × (r.1.current ≡ c.current)
  run-Kept [] w c d s remote = ((w, c), refl, refl)
  run-Kept ((v, source) ∷ calls) w c d s (one_remote, remote) =
      let set = set_variant-Set floats w c v source d in
      let after : World × Cvar = (set.world, set.cvar) in
      let k = set_variant-Kept 2 w c v source after one_remote s set.returned in
      let (r, returned, same_value) =
        run-Kept calls set.world set.cvar set.in_domain (IsSealed-again w c after k s) remote in
      rw set.returned (r, returned, same_value ∙ k.same_value)
