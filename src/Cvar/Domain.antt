-- ===== src/Cvar/Domain.antt =====
-- The domains of console variables of src/cvar.c under changes.
use co_d4x_client_pub.Common.{
  ℕ, suc, ◌^◌, ◌<◌, ◌≡◌, refl, Bool, Bool-cases, inl, inr, true, false, Option, none, some, List,
  [], ◌∷◌, leb, length, arith, get_or-set_self, slt, sle,
}
use co_d4x_client_pub.Cvar.{
  CvarType, SetSource, Value, Limits, Cvar, World, Floats, word, has_flag, cvar_latch, is_remote,
  values_equal, value_in_domain, can_change_value, assign, set_latched_value, set_current,
  set_checked, set_by, set_variant, clamp_enum, kept_enum, with_word, apply_new_enum_domain,
}

module _ (floats : Floats) where
  -- The value, the latched and the reset value lie in the domain.
  pub record InDomain (c : Cvar) : Type 0 where
    pub current : value_in_domain floats c.kind c.current c.limits ≡ true
    pub latched : value_in_domain floats c.kind c.latched c.limits ≡ true
    pub reset : value_in_domain floats c.kind c.reset c.limits ≡ true

  pub value_in_domain-assign :
      (kind : CvarType) (old v : Value) (l : Limits)
      → value_in_domain floats kind v l ≡ true
      → value_in_domain floats kind (assign kind old v) l ≡ true
  unfolding value_in_domain
  value_in_domain-assign CvarType.bool old v l h = h
  value_in_domain-assign CvarType.float old v l h = h
  value_in_domain-assign CvarType.vec2 old v l h = h
  value_in_domain-assign CvarType.vec3 old v l h = h
  value_in_domain-assign CvarType.vec4 old v l h = h
  value_in_domain-assign CvarType.int old v l h = h
  value_in_domain-assign CvarType.enum old v l h = h
  value_in_domain-assign CvarType.string old v l h = refl
  value_in_domain-assign CvarType.color old v l h = h

  latched-InDomain :
      (c : Cvar) (v : Value)
      → InDomain c
      → value_in_domain floats c.kind v c.limits ≡ true
      → InDomain (set_latched_value c v)
  latched-InDomain c v d h = record {
    current = d.current;
    latched = value_in_domain-assign c.kind c.latched v c.limits h;
    reset = d.reset;
  }

  current-InDomain :
      (w : World) (c : Cvar) (v : Value)
      → InDomain c
      → value_in_domain floats c.kind v c.limits ≡ true
      → InDomain (set_current floats w c v).1
  current-InDomain w c v d h = elim (Bool-cases (values_equal floats c.kind c.current v)) [
    | inl equal ↦ rw equal (latched-InDomain c c.current d d.current)
    | inr new ↦ rw new (record {
      current = value_in_domain-assign c.kind c.current v c.limits h;
      latched = value_in_domain-assign c.kind c.latched v c.limits h;
      reset = d.reset;
    })
  ]

  checked-InDomain :
      (w : World) (c : Cvar) (v : Value) (source : SetSource)
      → InDomain c
      → value_in_domain floats c.kind v c.limits ≡ true
      → InDomain (set_checked floats w c v source).1
  checked-InDomain w c v source d h = elim (Bool-cases (is_remote source)) [
    | inr local ↦ rw local (current-InDomain w c v d h)
    | inl remote ↦ elim (Bool-cases (can_change_value floats w c v source)) [
      | inr refused ↦ rw (remote, refused) d
      | inl accepted ↦ elim (Bool-cases (has_flag c.flags cvar_latch)) [
        | inl latch ↦ rw (remote, accepted, latch) (latched-InDomain c v d h)
        | inr direct ↦ rw (remote, accepted, direct) (current-InDomain w c v d h)
      ]
    ]
  ]

  -- A result with the values in the domain.
  pub record Set (result : Option (World × Cvar)) : Type 0 where
    pub world : World
    pub cvar : Cvar
    pub returned : result ≡ some (world, cvar)
    pub in_domain : InDomain cvar

  kept : (r : World × Cvar) → InDomain r.1 → Set (some r)
  kept r d = record { world = r.0; cvar = r.1; returned = refl; in_domain = d }

  set_by-Set :
      (nameless valid : Bool) (kind : CvarType) (old accepted : World × Cvar)
      (retry : Option (World × Cvar))
      → InDomain old.1
      → (valid ≡ true → InDomain accepted.1)
      → ((valid ≡ false) × (nameless ≡ false) → Set retry)
      → Set (set_by nameless valid kind old accepted retry)
  set_by-Set true valid kind old accepted retry d h r = kept old d
  set_by-Set false true kind old accepted retry d h r = kept accepted (h refl)
  set_by-Set false false CvarType.enum old accepted retry d h r = r (refl, refl)
  set_by-Set false false CvarType.bool old accepted retry d h r = kept old d
  set_by-Set false false CvarType.float old accepted retry d h r = kept old d
  set_by-Set false false CvarType.vec2 old accepted retry d h r = kept old d
  set_by-Set false false CvarType.vec3 old accepted retry d h r = kept old d
  set_by-Set false false CvarType.vec4 old accepted retry d h r = kept old d
  set_by-Set false false CvarType.int old accepted retry d h r = kept old d
  set_by-Set false false CvarType.string old accepted retry d h r = kept old d
  set_by-Set false false CvarType.color old accepted retry d h r = kept old d

  variant-Set :
      (n : ℕ) (w : World) (c : Cvar) (v : Value) (source : SetSource)
      → InDomain c
      → (value_in_domain floats c.kind v c.limits ≡ false
          → Set (set_variant floats n w c c.reset source))
      → Set (set_variant floats (suc n) w c v source)
  variant-Set n w c v source d retry =
      set_by-Set (leb (length c.name) 0) (value_in_domain floats c.kind v c.limits) c.kind (w, c)
        (set_checked floats w c v source) (set_variant floats n w c c.reset source) d
        (checked-InDomain w c v source d) (λ h. retry h.0)

  pub set_variant-Set :
      (w : World) (c : Cvar) (v : Value) (source : SetSource)
      → InDomain c
      → Set (set_variant floats 2 w c v source)
  set_variant-Set w c v source d =
      variant-Set 1 w c v source d
        (λ invalid. variant-Set 0 w c c.reset source d (λ e. absurd (ground (arith, e, d.reset))))

  abbrev pub and_then :
      Option (World × Cvar) → (World → Cvar → Option (World × Cvar)) → Option (World × Cvar)
  and_then none f = none
  and_then (some (w, c)) f = f w c

  abbrev pub run : World → Cvar → List (Value × SetSource) → Option (World × Cvar)
  run w c [] = some (w, c)
  run w c ((v, source) ∷ calls) =
      and_then (set_variant floats 2 w c v source) (λ w' c'. run w' c' calls)

  -- Whatever values are set on a variable from whatever sources, one after the other, each call ends,
  -- with at most one call of itself, and in the end the value and the latched value lie in the
  -- variable's domain, as they and its reset value do in the beginning.
  pub run-Set :
      (calls : List (Value × SetSource)) (w : World) (c : Cvar) → InDomain c → Set (run w c calls)
  run-Set [] w c d = record { world = w; cvar = c; returned = refl; in_domain = d }
  run-Set ((v, source) ∷ calls) w c d =
      let s = set_variant-Set w c v source d in
      rw s.returned (run-Set calls s.world s.cvar s.in_domain)

-- A number that counts a string of an enumeration.
abbrev IsCounted : ℕ → ℕ → Type 0
IsCounted count n = (sle 0 n ≡ true) × (slt n count ≡ true)

clamp_enum-IsCounted :
    (count n replacement : ℕ)
    → 0 < count
    → count < 2 ^ 31
    → IsCounted count (clamp_enum count n replacement)
clamp_enum-IsCounted count n replacement h few = (ground arith, ground arith)

kept_enum-IsCounted :
    (count old integer : ℕ)
    → IsCounted count integer
    → IsCounted count (kept_enum count old integer)
kept_enum-IsCounted count old integer h = (ground arith, ground arith)

module _ (floats : Floats) where
  enum-InDomain :
      (v : Value) (n : ℕ) (l : Limits)
      → 0 < length v.words
      → IsCounted l.min n
      → value_in_domain floats CvarType.enum (with_word v n) l ≡ true
  unfolding value_in_domain
  enum-InDomain v n l some_word (low, high) =
      rw (get_or-set_self v.words 0 n 0 some_word, low, high) refl

  -- A new domain of an enumeration of at least one string, whatever the values were and whatever the
  -- new default is: the value, the latched and the reset value lie in it.
  pub apply_new_enum_domain-InDomain :
      (c : Cvar) (domain : Limits) (newdefault : ℕ)
      → c.kind ≡ CvarType.enum
      → 0 < domain.min
      → domain.min < 2 ^ 31
      → 0 < length c.current.words
      → 0 < length c.latched.words
      → 0 < length c.reset.words
      → InDomain floats (apply_new_enum_domain c domain newdefault)
  apply_new_enum_domain-InDomain c domain newdefault e one few i j k =
      let integer = clamp_enum domain.min (word c.current 0) newdefault in
      let fits = clamp_enum-IsCounted domain.min (word c.current 0) newdefault one few in
      record {
        current = rw e (enum-InDomain c.current integer domain i fits);
        latched = rw e (
            enum-InDomain c.latched (kept_enum domain.min (word c.latched 0) integer) domain j
              (kept_enum-IsCounted domain.min (word c.latched 0) integer fits));
        reset = rw e (
            enum-InDomain c.reset (clamp_enum domain.min newdefault newdefault) domain k
              (clamp_enum-IsCounted domain.min newdefault newdefault one few));
      }
