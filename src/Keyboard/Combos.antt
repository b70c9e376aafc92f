-- ===== src/Keyboard/Combos.antt =====
-- term/main.c: which command the keys on the stack are.
use vjft.Prelude.{
  ℕ, zero, suc, ◌≤◌, ◌≡◌, refl, ap, List, [], ◌∷◌, ◌++◌, Bool, true, false, ◌==◌, ◌&&◌,
}
use vjft.Prelude.{==_iff, some, get_elem?, length, take, arith, take_all, All, ◌↔◌}
use vjft.Keyboard.{is_ctrl_stack_empty, matches_from, matches_combo, KeyMap, find_command_by_key}

-- The keys from the last to the first, as pushing them leaves them on the stack.
unfoldable pub pushed : List ℕ → List ℕ → List ℕ
pushed [] stack = stack
pushed (key ∷ keys) stack = pushed keys (key ∷ stack)

pushed-snoc :
    (keys : List ℕ) (key : ℕ) (stack : List ℕ)
    → pushed (keys ++ (key ∷ [])) stack ≡ key ∷ pushed keys stack
unfolding pushed
pushed-snoc [] key stack = refl
pushed-snoc (k ∷ keys) key stack = pushed-snoc keys key (k ∷ stack)

-- The key at an index, and what the keys up to it leave on the stack.
key_at :
    (i : ℕ) (combo : List ℕ)
    → suc i ≤ length combo
    → (wanted : ℕ) × (get_elem? combo i ≡ some wanted)
      × (take (suc i) combo ≡ take i combo ++ (wanted ∷ []))
key_at i [] inside = absurd (omega arith)
key_at zero (key ∷ combo) inside = (key, refl, refl)
key_at (suc i) (key ∷ combo) inside =
    let (wanted, found, taken) = key_at i combo (omega arith) in (wanted, found, ap (key ∷◌) taken)

pushed-take :
    (i : ℕ) (combo : List ℕ)
    → suc i ≤ length combo
    → (wanted : ℕ) × (get_elem? combo i ≡ some wanted)
      × (pushed (take (suc i) combo) [] ≡ wanted ∷ pushed (take i combo) [])
pushed-take i combo inside =
    let (wanted, found, taken) = key_at i combo inside in
    (wanted, found, rw taken (pushed-snoc (take i combo) wanted []))

and_parts : (a b : Bool) → (a && b) ≡ true → (a ≡ true) × (b ≡ true)
and_parts a b h = (ground arith, ground arith)

matches_from_sound :
    (combo : List ℕ) (i : ℕ) (stack : List ℕ)
    → i ≤ length combo
    → matches_from combo i stack ≡ true
    → stack ≡ pushed (take i combo) []
unfolding matches_from is_ctrl_stack_empty pushed
matches_from_sound combo zero [] inside h = refl
matches_from_sound combo zero (key ∷ stack) inside h = absurd (ground arith)
matches_from_sound combo (suc i) [] inside h = absurd (ground arith)
matches_from_sound combo (suc i) (key ∷ stack) inside h =
    let (wanted, found, taken) = pushed-take i combo inside in
    let (same, rest) =
      and_parts (key == wanted) (matches_from combo i stack) (rw (matches_from, found) at h) in
    let same_key : key ≡ wanted = (==_iff key wanted).0 same in
    let same_rest = matches_from_sound combo i stack (omega arith) rest in
    rw (taken, same_key, same_rest) refl

matches_from_complete :
    (combo : List ℕ) (i : ℕ)
    → i ≤ length combo
    → matches_from combo i (pushed (take i combo) []) ≡ true
unfolding matches_from is_ctrl_stack_empty pushed
matches_from_complete combo zero inside = refl
matches_from_complete combo (suc i) inside =
    let (wanted, found, taken) = pushed-take i combo inside in
    let same : (wanted == wanted) ≡ true = (==_iff wanted wanted).1 refl in
    rw (taken, matches_from, found, same) (matches_from_complete combo i (omega arith))

-- matchesCombo holds for the stack that typing the combination leaves, and for no other.
pub matches_combo_iff :
    (combo stack : List ℕ) → (matches_combo stack combo ≡ true) ↔ (stack ≡ pushed combo [])
unfolding matches_combo
matches_combo_iff combo stack =
    let all : take (length combo) combo ≡ combo = take_all _ combo (omega arith) in
    (
      λ h. rw all at (matches_from_sound combo (length combo) stack (omega arith) h),
      λ e. rw e (rw all at (matches_from_complete combo (length combo) (omega arith))),
    )

-- Typing a combination finds its entry, if no entry before has the same combination.
pub find_command_by_key-pushed :
    (before after : List KeyMap) (entry : KeyMap)
    → All (λ e. matches_combo (pushed entry.combo []) e.combo ≡ false) before
    → find_command_by_key (before ++ (entry ∷ after)) (pushed entry.combo []) ≡ some entry
unfolding find_command_by_key
find_command_by_key-pushed [] after entry other = rw ((matches_combo_iff entry.combo _).1 refl) refl
find_command_by_key-pushed (e ∷ before) after entry (other, others) =
    rw other (find_command_by_key-pushed before after entry others)
