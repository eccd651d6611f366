-- ===== src/Cvar/Latch.antt =====
-- Values of console variables of src/cvar.c that are latched up to a restart.
use co_d4x_client_pub.Common.{
  ◌<◌, ◌≡◌, refl, sym, ap, ◌∙◌, Bool, Bool-cases, inl, inr, true, false, Option, some, leb, length,
  arith,
}
use co_d4x_client_pub.Cvar.{
  CvarType, SetSource, Value, Cvar, World, Floats, has_flag, cvar_latch, is_protected, values_equal,
  value_in_domain, can_change_value, assign, set_latched_value, set_latch, set_current, set_checked,
  set_by, set_variant,
}
use co_d4x_client_pub.Cvar.Domain.{value_in_domain-assign}

by_tests :
    (nameless valid : Bool) (kind : CvarType) (old accepted : World × Cvar)
    (retry : Option (World × Cvar))
    → nameless ≡ false
    → valid ≡ true
    → set_by nameless valid kind old accepted retry ≡ some accepted
by_tests nameless valid kind old accepted retry h e = rw (h, e) refl

module _ (floats : Floats) where
  -- Only the text of a string's value counts.
  assign-left :
      (kind : CvarType) (old v x : Value)
      → values_equal floats kind (assign kind old v) x ≡ values_equal floats kind v x
  unfolding values_equal
  assign-left CvarType.bool old v x = refl
  assign-left CvarType.float old v x = refl
  assign-left CvarType.vec2 old v x = refl
  assign-left CvarType.vec3 old v x = refl
  assign-left CvarType.vec4 old v x = refl
  assign-left CvarType.int old v x = refl
  assign-left CvarType.enum old v x = refl
  assign-left CvarType.string old v x = refl
  assign-left CvarType.color old v x = refl

  assign-right :
      (kind : CvarType) (old v x : Value)
      → values_equal floats kind x (assign kind old v) ≡ values_equal floats kind x v
  unfolding values_equal
  assign-right CvarType.bool old v x = refl
  assign-right CvarType.float old v x = refl
  assign-right CvarType.vec2 old v x = refl
  assign-right CvarType.vec3 old v x = refl
  assign-right CvarType.vec4 old v x = refl
  assign-right CvarType.int old v x = refl
  assign-right CvarType.enum old v x = refl
  assign-right CvarType.string old v x = refl
  assign-right CvarType.color old v x = refl

  -- The variable with the value that was latched, and the one behind the restart.
  pub record Latched (w : World) (c : Cvar) (v : Value) : Type 0 where
    pub world : World
    pub latched :
        set_variant floats 2 w c v SetSource.external ≡ some (world, set_latched_value c v)
    pub unmodified : (set_latched_value c v).modified ≡ c.modified
    pub last : World × Cvar
    pub applied :
        set_variant floats 2 world
          (set_latched_value c v)
          (set_latched_value c v).latched
          SetSource.internal
        ≡ some last
    pub value : values_equal floats c.kind last.1.current v ≡ true

  set_variant-named :
      (w : World) (c : Cvar) (v : Value) (source : SetSource)
      → 0 < length c.name
      → value_in_domain floats c.kind v c.limits ≡ true
      → set_variant floats 2 w c v source ≡ some (set_checked floats w c v source)
  set_variant-named w c v source named valid =
      by_tests (leb (length c.name) 0) (value_in_domain floats c.kind v c.limits) c.kind (w, c)
        (set_checked floats w c v source) (set_variant floats 1 w c c.reset source) (ground arith)
        valid

  set_current-value :
      (w : World) (c : Cvar) (v x : Value)
      → values_equal floats c.kind v x ≡ true
      → ((values_equal floats c.kind c.current v ≡ true)
          → values_equal floats c.kind c.current x ≡ true)
      → values_equal floats c.kind (set_current floats w c v).1.current x ≡ true
  set_current-value w c v x same keep = elim (Bool-cases (values_equal floats c.kind c.current v)) [
    | inl equal ↦ rw equal (keep equal)
    | inr new ↦ rw new (assign-left c.kind c.current v x ∙ same)
  ]

  -- A value that the console sets on a variable that changes at a restart only is latched, which
  -- leaves `modified` as it is; and the program's own call with the latched value, as it registers the
  -- variable again, makes it the variable's value. The variable is not protected, the value is in its
  -- domain, and it is equal to itself, which of floats is not said of all.
  pub set_variant-Latched :
      (w : World) (c : Cvar) (v : Value)
      → 0 < length c.name
      → has_flag c.flags cvar_latch ≡ true
      → is_protected w c SetSource.external ≡ false
      → value_in_domain floats c.kind v c.limits ≡ true
      → values_equal floats c.kind v v ≡ true
      → Latched w c v
  unfolding can_change_value
  set_variant-Latched w c v named latch free valid self =
      let c' = set_latched_value c v in
      let w' = (set_latch floats w c v).0 in
      let accepted : can_change_value floats w c v SetSource.external ≡ true =
        ground (arith, free) in
      let checked : set_checked floats w c v SetSource.external ≡ set_latch floats w c v =
        rw (accepted, latch) refl in
      let valid' = value_in_domain-assign floats c.kind c.latched v c.limits valid in
      record {
        world = w';
        latched = set_variant-named w c v SetSource.external named valid ∙ ap some checked;
        unmodified = ground arith;
        last = set_current floats w' c' c'.latched;
        applied = set_variant-named w' c' c'.latched SetSource.internal named valid';
        value =
            set_current-value w' c' c'.latched v (assign-left c.kind c.latched v v ∙ self)
              (λ e. sym (assign-right c.kind c.latched v c.current) ∙ e);
      }
