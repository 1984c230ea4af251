-- ===== src/Com/Tests/Windows.antt =====
-- A small window, with each theorem on windows applied to it.
use impact.Prelude.{
  get_elem?, Option, ◌==◌, ℕ, ◌≡◌, ◌≢◌, ◌≤◌, ◌<◌, refl, String, str_eq, pos, true, false, Bool,
  ◌&&◌, ◌||◌, leb, ltb, inl, inr, none, some, [], ◌∷◌, All, arith, str_eq_iff, not, ◌++◌, ◌⊎◌,
}
use impact.Com.ItemSet.{
  AttrSet, Entry, delete_dataitem, new_dataitem, insert_item, insert_components, reset, resize,
}
use impact.Com.Window.{
  WindowOutcome, assign, max_id, failed_assertion, WindowItem, AttrMap, Window, returned, thrown,
  com_num_keywords, keywords, new_window, find_name, erase_name, new_window_dataitem,
  delete_window_dataitem, init_done, status_shrunk, err_invalid_dataitem_name, ◌>>=◌,
}
use impact.Com.Window.Registered.{ends, IsPlaced, IsApart, IsSeparate, IsStored, IsRegistered}
use impact.Com.Window.Done.{init_done-IsRegistered, init_done-keywords, init_done-failed_assertion}

-- A test of what makes a window registered.
abbrev is_placed : ℕ → WindowItem → Bool
is_placed last a =
    (ltb a.id com_num_keywords && leb (ends a) com_num_keywords)
    || (leb com_num_keywords a.id && (ltb 0 a.ncomp && leb (ends a) last))

abbrev all_placed : ℕ → AttrMap → Bool
all_placed last [] = true
all_placed last ((n, a) ∷ m) = is_placed last a && all_placed last m

abbrev apart_from : String → WindowItem → AttrMap → Bool
apart_from n a [] = true
apart_from n a ((k, b) ∷ m) =
    (not (str_eq k n) && (leb (ends b) a.id || leb (ends a) b.id)) && apart_from n a m

abbrev is_separate : AttrMap → Bool
is_separate [] = true
is_separate ((n, a) ∷ m) = apart_from n a m && is_separate m

both : (a b : Bool) → a && b ≡ true → (a ≡ true) × (b ≡ true)
both true b e = (refl, e)
both false b e = cc e

either : (a b : Bool) → a || b ≡ true → (a ≡ true) ⊎ (b ≡ true)
either true b e = inl refl
either false b e = inr e

ltb_below : {m n : ℕ} → ltb m n ≡ true → m < n
ltb_below {m} {n} e = ground arith

leb_below : {m n : ℕ} → leb m n ≡ true → m ≤ n
leb_below {m} {n} e = ground arith

is_placed-IsPlaced : (last : ℕ) (a : WindowItem) → is_placed last a ≡ true → IsPlaced last a
is_placed-IsPlaced last a e = elim (either (ltb a.id 13 && leb (ends a) 13) _ e) [
  | inl k ↦ let (l, m) = both (ltb a.id 13) (leb (ends a) 13) k in inl (ltb_below l, leb_below m)
  | inr k ↦
      let (l, m) = both (leb 13 a.id) (ltb 0 a.ncomp && leb (ends a) last) k in
      let (z, p) = both (ltb 0 a.ncomp) (leb (ends a) last) m in
      inr (leb_below l, ltb_below z, leb_below p)
]

all_placed-IsPlaced :
    (last : ℕ) (m : AttrMap) → all_placed last m ≡ true → All (λ e. IsPlaced last e.1) m
all_placed-IsPlaced last [] e = tt
all_placed-IsPlaced last ((n, a) ∷ m) e =
    let (h, t) = both _ _ e in (is_placed-IsPlaced last a h, all_placed-IsPlaced last m t)

apart_from-IsApart :
    (n : String) (a : WindowItem) (m : AttrMap)
    → apart_from n a m ≡ true
    → All (λ e. (e.0 ≢ n) × IsApart e.1 a) m
apart_from-IsApart n a [] e = tt
apart_from-IsApart n a ((k, b) ∷ m) e =
    let (h, t) =
      both (not (str_eq k n) && (leb (ends b) a.id || leb (ends a) b.id)) (apart_from n a m) e in
    let (d, p) = both (not (str_eq k n)) (leb (ends b) a.id || leb (ends a) b.id) h in
    (
      (
        λ s. let same : str_eq k n ≡ true = (str_eq_iff k n).1 s in cc (rw same at d),
        elim (either (leb (ends b) a.id) (leb (ends a) b.id) p) [
          | inl q ↦ inl (leb_below q)
          | inr q ↦ inr (leb_below q)
        ],
      ),
      apart_from-IsApart n a m t,
    )

is_separate-IsSeparate : (m : AttrMap) → is_separate m ≡ true → IsSeparate m
is_separate-IsSeparate [] e = tt
is_separate-IsSeparate ((n, a) ∷ m) e =
    let (h, t) = both _ _ e in (apart_from-IsApart n a m h, is_separate-IsSeparate m t)

abbrev is_held : ℕ → Option (Option Entry) → Bool
is_held ncomp none = false
is_held ncomp (some none) = false
is_held ncomp (some (some b)) = b.ncomp == ncomp

is_held-Entry :
    (ncomp : ℕ) (o : Option (Option Entry))
    → is_held ncomp o ≡ true
    → (b : Entry) × (o ≡ some (some b)) × (b.ncomp ≡ ncomp)
is_held-Entry ncomp none e = cc e
is_held-Entry ncomp (some none) e = cc e
is_held-Entry ncomp (some (some b)) e = (b, refl, ground arith)

abbrev all_held : AttrSet → AttrMap → Bool
all_held s [] = true
all_held s ((n, a) ∷ m) =
    (ltb a.id com_num_keywords || is_held a.ncomp (get_elem? s a.id)) && all_held s m

all_held-IsStored : (s : AttrSet) (m : AttrMap) → all_held s m ≡ true → All (λ e. IsStored s e.1) m
all_held-IsStored s [] e = tt
all_held-IsStored s ((n, a) ∷ m) e =
    let (h, t) =
      both (ltb a.id com_num_keywords || is_held a.ncomp (get_elem? s a.id)) (all_held s m) e in
    (
      elim (either (ltb a.id com_num_keywords) (is_held a.ncomp (get_elem? s a.id)) h) [
        | inl k ↦ inl (ltb_below k)
        | inr k ↦ inr (is_held-Entry a.ncomp (get_elem? s a.id) k)
      ],
      all_held-IsStored s m t,
    )

registered :
    (w : Window)
    → all_held w.attr_set w.attr_map ≡ true
    → all_placed w.last_id w.attr_map ≡ true
    → is_separate w.attr_map ≡ true
    → leb com_num_keywords w.last_id ≡ true
    → IsRegistered w
registered w i p s l = record {
  in_set = all_held-IsStored w.attr_set w.attr_map i;
  placed = all_placed-IsPlaced w.last_id w.attr_map p;
  separate = is_separate-IsSeparate w.attr_map s;
  above = ground arith;
}

new_window-IsRegistered : IsRegistered new_window
new_window-IsRegistered = registered new_window refl refl refl refl

-- The window with a vector "a" and a scalar "b".
abbrev item_a : WindowItem
item_a = record { id = 13; ncomp = 3 }

abbrev object : (address id ncomp : ℕ) → Option Entry
object address id ncomp = some (record { address = address; id = id; ncomp = ncomp })

abbrev window_ab : Window
window_ab = record new_window {
  attr_map = (keywords ++ ("a", item_a) ∷ []) ++ ("b", record { id = 17; ncomp = 1 }) ∷ [];
  last_id = 18;
  attr_set =
      new_window.attr_set
      ++ object 100 13 3
        ∷ object 101 14 1
        ∷ object 102 15 1
        ∷ object 103 16 1
        ∷ object 104 17 1
        ∷ [];
}

window_ab-IsRegistered : IsRegistered window_ab
window_ab-IsRegistered = registered window_ab refl refl refl refl

a_found : find_name "a" window_ab.attr_map ≡ some item_a
unfolding find_name
a_found = refl

init_done-IsRegistered_example :
    IsRegistered (init_done window_ab)
    × ((init_done window_ab).attr_map ≡ window_ab.attr_map)
    × (init_done window_ab).last_id ≤ 18
init_done-IsRegistered_example =
    init_done-IsRegistered "a" item_a window_ab window_ab-IsRegistered a_found (omega arith)

-- The window after "a" and then "b" are deleted.
abbrev window_emptied : Window
window_emptied = record new_window {
  last_id = 17;
  status = status_shrunk;
  attr_set = new_window.attr_set ++ none ∷ none ∷ none ∷ none ∷ [];
}

unfolded_calls : Unit {0}
unfolding delete_window_dataitem new_window_dataitem find_name assign erase_name delete_dataitem
    new_dataitem insert_item insert_components reset resize
unfolded_calls = tt

emptied :
    (delete_window_dataitem "a" window_ab >>= λ w. delete_window_dataitem "b" w)
    ≡ returned window_emptied
unfolding unfolded_calls
emptied = refl

c_new : find_name "c" keywords ≡ none
unfolding find_name
c_new = refl

init_done-keywords_example :
    (w' : Window) × (new_window_dataitem 300 "c" b'n' (pos 8) 1 (init_done window_emptied)
      ≡ returned w')
    × (find_name "c" w'.attr_map ≡ some (record { id = 12; ncomp = 1 }))
    × (delete_window_dataitem "c" w' ≡ thrown err_invalid_dataitem_name)
init_done-keywords_example =
    init_done-keywords 300 "c" b'n' (pos 8) window_emptied
      (record { address = 12; id = 12; ncomp = 0 }) refl refl (omega arith) refl refl c_new refl
      refl refl

-- The window after "a", "b" and "c" are entered, and "b" and then "c" are deleted.
abbrev window_a : Window
window_a = record new_window {
  attr_map = keywords ++ ("a", record { id = 13; ncomp = 1 }) ∷ [];
  last_id = 15;
  status = status_shrunk;
  attr_set = new_window.attr_set ++ object 100 13 1 ∷ none ∷ [];
}

abbrev enter : ℕ → String → Window → WindowOutcome Window
enter address aname w = new_window_dataitem address aname b'n' (pos 8) 1 w

a_left :
    (enter 100 "a" new_window >>= λ w. enter 101 "b" w >>= λ w.
    enter 102 "c" w >>= λ w. delete_window_dataitem "b" w >>= λ w. delete_window_dataitem "c" w)
    ≡ returned window_a
unfolding unfolded_calls
a_left = refl

d_new : find_name "d" window_a.attr_map ≡ none
unfolding find_name
d_new = refl

max_id_a : max_id 0 window_a.attr_map ≡ 14
unfolding max_id
max_id_a = refl

init_done-failed_assertion_example :
    new_window_dataitem 103 "d" b'n' (pos 8) 2 (init_done window_a) ≡ thrown failed_assertion
init_done-failed_assertion_example =
    init_done-failed_assertion 103 "d" b'n' (pos 8) 2 window_a refl (omega (arith, max_id_a))
      (rw max_id_a refl) d_new refl (omega arith) refl refl
