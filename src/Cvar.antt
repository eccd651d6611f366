-- ===== src/Cvar.antt =====
-- The values of console variables of src/cvar.c: their domains, who may change them, and the value
-- that is latched up to a restart. A value is the union's four words, and the text that it points
-- to; an `int` and a `float` are their 32-bit patterns. Comparing floats is a parameter. Strings
-- are their texts: which variables share the memory of a string, and when it is freed, is left out,
-- as are messages.
pub mod Domain
pub mod Protect
pub mod Latch
mod Tests
use co_d4x_client_pub.Common.{
  ℕ, zero, suc, ◌+◌, ◌/◌, ◌%◌, Bool, true, false, Option, none, some, List, [], ◌∷◌, ◌==◌,
  if◌then◌else◌, ◌||◌, ◌&&◌, not, leb, length, get_or, set, sub32, slt, sle, bit_or, sext16,
}
use co_d4x_client_pub.Text.{same}

pub data CvarType : Type 0 where
  bool float vec2 vec3 vec4 int enum string color : CvarType

pub data SetSource : Type 0 where
  internal external script devgui : SetSource

pub record Value : Type 0 where
  pub words : List ℕ
  pub text : List ℕ

-- `imin`, `fmin` or `enumCount`, and `imax` or `fmax`.
pub record Limits : Type 0 where
  pub min : ℕ
  pub max : ℕ

pub record Cvar : Type 0 where
  pub name : List ℕ
  pub flags : ℕ
  pub kind : CvarType
  pub modified : Bool
  pub current : Value
  pub latched : Value
  pub reset : Value
  pub limits : Limits

-- `cvar_cheats->boolean`, `cvar_modifiedFlags` and `cvar_latchedSet`.
pub record World : Type 0 where
  pub cheats : Bool
  pub modified_flags : ℕ
  pub latched_set : Bool

-- `a == b`, `a <= b` and `a > b` on floats.
pub record Floats : Type 0 where
  pub eq : ℕ → ℕ → Bool
  pub le : ℕ → ℕ → Bool
  pub gt : ℕ → ℕ → Bool

abbrev pub word : Value → ℕ → ℕ
word v i = get_or v.words i 0

abbrev pub boolean : Value → ℕ
boolean v = word v 0 % 256

abbrev pub has_flag : ℕ → ℕ → Bool
has_flag flags bit = flags / bit % 2 == 1

abbrev pub cvar_init : ℕ
cvar_init = 16

abbrev pub cvar_latch : ℕ
cvar_latch = 32

abbrev pub cvar_rom : ℕ
cvar_rom = 64

abbrev pub cvar_cheat : ℕ
cvar_cheat = 128

abbrev pub is_remote : SetSource → Bool
is_remote SetSource.internal = false
is_remote SetSource.external = true
is_remote SetSource.script = true
is_remote SetSource.devgui = false

abbrev pub with_word : Value → ℕ → Value
with_word v n = record v { words = set v.words 0 n }

-- A number that is not below the count is replaced, then both ends are cut.
abbrev pub clamp_enum : ℕ → ℕ → ℕ → ℕ
clamp_enum count n replacement =
    let m = if sle count n then replacement else n in
    let cut = if sle count m then sub32 count 1 else m in if slt cut 0 then 0 else cut

abbrev pub kept_enum : ℕ → ℕ → ℕ → ℕ
kept_enum count old integer = if sle count old || slt old 0 then integer else old

-- `Cvar_ApplyNewEnumDomain`
abbrev pub apply_new_enum_domain : Cvar → Limits → ℕ → Cvar
apply_new_enum_domain c domain newdefault =
    let integer = clamp_enum domain.min (word c.current 0) newdefault in
    record c {
      limits = domain;
      current = with_word c.current integer;
      reset = with_word c.reset (clamp_enum domain.min newdefault newdefault);
      latched = with_word c.latched (kept_enum domain.min (word c.latched 0) integer);
    }

-- The reasons of `Dvar_CanChangeValue`.
abbrev pub is_protected : World → Cvar → SetSource → Bool
is_protected w c source =
    has_flag c.flags cvar_rom
    || has_flag c.flags cvar_init
    || (has_flag c.flags cvar_cheat && not w.cheats && is_remote source)

-- What the value of a variable becomes: a string changes the pointer only.
abbrev pub assign : CvarType → Value → Value → Value
assign CvarType.string old v = record { words = old.words; text = v.text }
assign _ old v = v

abbrev pub update_value : Cvar → Value → Cvar
update_value c v = record c {
  current = assign c.kind c.current v;
  latched = assign c.kind c.latched v;
}

abbrev pub set_latched_value : Cvar → Value → Cvar
set_latched_value c v = record c { latched = assign c.kind c.latched v }

-- The first tests of `Dvar_SetVariant`: a variable without a name stays, and a value out of the domain
-- is refused, which makes an enumeration take its reset value.
abbrev pub set_by :
    Bool
    → Bool
    → CvarType
    → World × Cvar
    → World × Cvar
    → Option (World × Cvar)
    → Option (World × Cvar)
set_by true valid kind old accepted retry = some old
set_by false true kind old accepted retry = some accepted
set_by false false CvarType.enum old accepted retry = retry
set_by false false _ old accepted retry = some old

module _ (floats : Floats) where
  abbrev pub vector_equal : Value → Value → ℕ → ℕ → Bool
  vector_equal a b i zero = true
  vector_equal a b i (suc n) = floats.eq (word b i) (word a i) && vector_equal a b (i + 1) n

  unfoldable pub values_equal : CvarType → Value → Value → Bool
  values_equal CvarType.bool a b = boolean a == boolean b
  values_equal CvarType.float a b = floats.eq (word b 0) (word a 0)
  values_equal CvarType.vec2 a b = vector_equal a b 0 2
  values_equal CvarType.vec3 a b = vector_equal a b 0 3
  values_equal CvarType.vec4 a b = vector_equal a b 0 4
  values_equal CvarType.int a b = word a 0 == word b 0
  values_equal CvarType.enum a b = word a 0 == word b 0
  values_equal CvarType.string a b = same a.text b.text
  values_equal CvarType.color a b = word a 0 == word b 0

  abbrev pub has_latched_value : Cvar → Bool
  has_latched_value c = not (values_equal c.kind c.current c.latched)

  abbrev pub vector_in_domain : Value → Limits → ℕ → ℕ → Bool
  vector_in_domain v l i zero = true
  vector_in_domain v l i (suc n) =
      not (floats.gt l.min (word v i))
      && not (floats.gt (word v i) l.max)
      && vector_in_domain v l (i + 1) n

  -- `Dvar_ValueInDomain`
  unfoldable pub value_in_domain : CvarType → Value → Limits → Bool
  value_in_domain CvarType.bool v l = boolean v == 1 || boolean v == 0
  value_in_domain CvarType.float v l = floats.le l.min (word v 0) && floats.le (word v 0) l.max
  value_in_domain CvarType.vec2 v l = vector_in_domain v l 0 2
  value_in_domain CvarType.vec3 v l = vector_in_domain v l 0 3
  value_in_domain CvarType.vec4 v l = vector_in_domain v l 0 4
  value_in_domain CvarType.int v l = sle l.min (word v 0) && sle (word v 0) l.max
  value_in_domain CvarType.enum v l = (sle 0 (word v 0) && slt (word v 0) l.min) || word v 0 == 0
  value_in_domain CvarType.string v l = true
  value_in_domain CvarType.color v l = true

  -- `Dvar_CanChangeValue`
  unfoldable pub can_change_value : World → Cvar → Value → SetSource → Bool
  can_change_value w c v source = values_equal c.kind v c.current || not (is_protected w c source)

  -- `Dvar_SetVariant` behind the check of the domain, where the value is latched, and where it is set.
  abbrev pub set_latch : World → Cvar → Value → World × Cvar
  set_latch w c v =
      let c' = set_latched_value c v in
      (record w { latched_set = w.latched_set || has_latched_value c' }, c')

  abbrev pub set_current : World → Cvar → Value → World × Cvar
  set_current w c v =
      if values_equal c.kind c.current v then (w, set_latched_value c c.current) else (
        record w { modified_flags = bit_or w.modified_flags (sext16 c.flags) },
        record (update_value c v) { modified = true },
      )

  abbrev pub set_checked : World → Cvar → Value → SetSource → World × Cvar
  set_checked w c v source =
      if is_remote source
      then if can_change_value w c v source
        then if has_flag c.flags cvar_latch then set_latch w c v else set_current w c v
        else (w, c)
      else set_current w c v

  -- `Dvar_SetVariant`, on the depth of its calls of itself, which it does to set an enumeration to its
  -- reset value; `none` is out of calls.
  abbrev pub set_variant : ℕ → World → Cvar → Value → SetSource → Option (World × Cvar)
  set_variant zero w c v source = none
  set_variant (suc n) w c v source =
      set_by (leb (length c.name) 0) (value_in_domain c.kind v c.limits) c.kind (w, c)
        (set_checked w c v source) (set_variant n w c c.reset source)

  -- `Cvar_SetInt` and its kind: the program's own calls. Two calls are enough where the reset value lies
  -- in the domain.
  abbrev pub set_value : World → Cvar → Value → Option (World × Cvar)
  set_value w c v = set_variant 2 w c v SetSource.internal

  abbrev pub reset_value : World → Cvar → Option (World × Cvar)
  reset_value w c = set_value w c c.reset
