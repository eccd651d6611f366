-- ===== src/Http/Clients.antt =====
-- The table of connections of src/httpftp.c. An access past the array is `none`.
use co_d4x_client_pub.Common.{
  ℕ, zero, suc, ◌+◌, ◌≤◌, ◌<◌, ◌≡◌, ◌≢◌, ◌⊎◌, refl, sym, ap, ◌∙◌, arith, inl, inr, true, false,
  ◌||◌, Option, none, some, List, [], ◌∷◌, length, set, drop, lt→ltb, ltb, sle, slt, if◌then◌else◌,
  minus_one, All,
}

abbrev pub max_http_clients : ℕ
max_http_clients = 256

-- A pointer is null or the address of a request.
abbrev pub Pointers : Type 0
Pointers = List (Option ℕ)

abbrev pub slot : Pointers → ℕ → Option (Option ℕ)
slot [] i = none
slot (p ∷ ps) zero = some p
slot (p ∷ ps) (suc i) = slot ps i

unfoldable pub connection_id_to_pointer : Pointers → ℕ → Option (Option ℕ)
connection_id_to_pointer ps id =
    if sle id 0 || slt (max_http_clients + 1) id then some none else slot ps id

unfoldable pub new_from : ℕ → ℕ → Pointers → ℕ × Pointers
new_from ftr i [] = (minus_one, [])
new_from ftr i (none ∷ ps) = (i, some ftr ∷ ps)
new_from ftr i (some p ∷ ps) = let (id, rest) = new_from ftr (i + 1) ps in (id, some p ∷ rest)

-- The first pointer of the array is not used.
unfoldable pub new_connection_id : Option ℕ → Pointers → ℕ × Pointers
new_connection_id none ps = (minus_one, ps)
new_connection_id (some ftr) [] = (minus_one, [])
new_connection_id (some ftr) (p ∷ ps) = let (id, rest) = new_from ftr 1 ps in (id, p ∷ rest)

unfoldable pub clear_connection_id : Pointers → ℕ → Option Pointers
clear_connection_id ps id =
    if sle id 0 || slt (max_http_clients + 1) id
    then some ps
    else if ltb id (length ps)
    then some (set ps id none)
    else none

-- The array as the program declares it.
abbrev pub IsTable : Pointers → Type 0
IsTable ps = length ps ≡ max_http_clients + 1

-- What a call for a new id leaves: a slot that was free now holds the request, and the others are as
-- they were.
pub record Allotted (ftr first : ℕ) (ps ps' : Pointers) (id : ℕ) : Type 0 where
  place : ℕ
  number : id ≡ first + place
  inside : place < length ps
  free : slot ps place ≡ some none
  held : slot ps' place ≡ some (some ftr)
  others : (j : ℕ) → j ≢ place → slot ps' j ≡ slot ps j
  size : length ps' ≡ length ps
  restored : set ps' place none ≡ ps

abbrev pub IsFull : Pointers → Type 0
IsFull ps = All (λ p. p ≢ none) ps

new_from-Allotted :
    (ftr i : ℕ) (ps : Pointers)
    → Allotted ftr i ps (new_from ftr i ps).1 (new_from ftr i ps).0
      ⊎ ((IsFull ps) × (new_from ftr i ps ≡ (minus_one, ps)))
unfolding new_from
new_from-Allotted ftr i [] = inr (record {}, refl)
new_from-Allotted ftr i (none ∷ ps) = inl (record {
  place = 0;
  number = omega arith;
  inside = omega arith;
  free = refl;
  held = refl;
  others = other;
  size = refl;
  restored = refl;
})
  where
    other : (j : ℕ) → j ≢ 0 → slot (some ftr ∷ ps) j ≡ slot (none ∷ ps) j
    other zero h = absurd (h refl)
    other (suc j) h = refl
new_from-Allotted ftr i (some p ∷ ps) = elim (new_from-Allotted ftr (i + 1) ps) [
  | inl a ↦ inl (record {
    place = suc a.place;
    number = omega (arith, a.number);
    inside = omega (arith, a.inside);
    free = a.free;
    held = a.held;
    others = other a;
    size = ap suc a.size;
    restored = ap (λ l. some p ∷ l) a.restored;
  })
  | inr (full, e) ↦ inr (((λ h. absurd (ground (arith, h))), full), rw e refl)
]
  where
    other :
        (a : Allotted ftr (i + 1) ps (new_from ftr (i + 1) ps).1 (new_from ftr (i + 1) ps).0)
        → (j : ℕ) → j ≢ suc a.place
        → slot (some p ∷ (new_from ftr (i + 1) ps).1) j ≡ slot (some p ∷ ps) j
    other a zero h = refl
    other a (suc j) h = a.others j (λ e. h (ap suc e))

in_table :
    (ps : Pointers) (id : ℕ)
    → 0 < id
    → id ≤ max_http_clients
    → connection_id_to_pointer ps id ≡ slot ps id
unfolding connection_id_to_pointer
in_table ps id pos le =
    let low : sle id 0 ≡ false = ground (arith, pos, le) in
    let high : slt (max_http_clients + 1) id ≡ false = ground (arith, pos, le) in
    rw (low, high) refl

-- The table with a new connection.
pub record IsGiven (ftr : ℕ) (ps ps' : Pointers) (id : ℕ) : Type 0 where
  pub valid : (0 < id) × (id ≤ max_http_clients)
  pub free : connection_id_to_pointer ps id ≡ some none
  pub found : connection_id_to_pointer ps' id ≡ some (some ftr)
  pub others :
      (j : ℕ)
      → 0 < j
      → j ≤ max_http_clients
      → j ≢ id
      → connection_id_to_pointer ps' j ≡ connection_id_to_pointer ps j
  pub size : IsTable ps'
  pub cleared : clear_connection_id ps' id ≡ some ps

-- HTTPServer_NewConnectionId gives a request an id from 1 to 256 that was free: by it
-- HTTPServer_ConnectionIdToPointer finds the request, every other id finds what it found before, and
-- HTTPServer_ClearConnectionId of it makes the table as it was. Only when all 256 ids are taken it
-- returns -1, and leaves the table as it is. The table has its 257 pointers.
pub new_connection_id-IsGiven :
    (ftr : ℕ) (ps : Pointers)
    → IsTable ps
    → IsGiven ftr ps (new_connection_id (some ftr) ps).1 (new_connection_id (some ftr) ps).0
      ⊎ ((IsFull (drop 1 ps)) × (new_connection_id (some ftr) ps ≡ (minus_one, ps)))
unfolding new_connection_id clear_connection_id
new_connection_id-IsGiven ftr [] e = absurd (omega (arith, e))
new_connection_id-IsGiven ftr (p ∷ ps) e = elim (new_from-Allotted ftr 1 ps) [
  | inl a ↦
      let id = (new_from ftr 1 ps).0 in
      let ps' = p ∷ (new_from ftr 1 ps).1 in
      let place : id ≡ suc a.place = omega (arith, a.number) in
      let pos : 0 < id = omega (arith, a.number) in
      let le : id ≤ max_http_clients = omega (arith, a.number, a.inside, e) in
      inl (record {
        valid = (pos, le);
        free = in_table (p ∷ ps) id pos le ∙ ap (slot (p ∷ ps)) place ∙ a.free;
        found = in_table ps' id pos le ∙ ap (slot ps') place ∙ a.held;
        others = λ j jpos jle ne.
            in_table ps' j jpos jle
            ∙ other a j jpos (λ k. ne (k ∙ sym place))
            ∙ sym (in_table (p ∷ ps) j jpos jle);
        size = omega (arith, a.size, e);
        cleared =
            let low : sle id 0 ≡ false = ground (arith, pos, le) in
            let high : slt (max_http_clients + 1) id ≡ false = ground (arith, pos, le) in
            let inside : ltb id (length ps') ≡ true =
              lt→ltb id (length ps') (omega (arith, a.size, e, le)) in
            rw (low, high, inside, place) (ap (λ l. some (p ∷ l)) a.restored);
      })
  | inr (full, same) ↦ inr (full, rw same refl)
]
  where
    other :
        (a : Allotted ftr 1 ps (new_from ftr 1 ps).1 (new_from ftr 1 ps).0)
        → (j : ℕ) → 0 < j
        → j ≢ suc a.place
        → slot (p ∷ (new_from ftr 1 ps).1) j ≡ slot (p ∷ ps) j
    other a zero pos ne = absurd (omega arith)
    other a (suc j) pos ne = a.others j (λ k. ne (ap suc k))
