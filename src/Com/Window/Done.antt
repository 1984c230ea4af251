-- ===== src/Com/Window/Done.antt =====
-- `init_done`: the next id is set back to the end of the last item, where items were deleted before
-- others.
use impact.Prelude.{
  get_elem?, set, length, leb, lt_of_get_elem?, ℕ, ◌≤◌, ◌<◌, inl, inr, refl, String, some, none,
  ◌≡◌, [], ◌∷◌, All, Bool-cases, arith, ltb, true, false, ◌||◌, if◌then◌else◌, ℤ, pos, negsuc,
  ltb_ℤ, ap, ◌==◌, ◌∙◌, str_eq_iff,
}
use impact.Com.ItemSet.{AttrSet, Entry, new_dataitem, insert_item, insert_components}
use impact.Com.Window.{
  failed_assertion, WindowItem, AttrMap, Window, WindowStatus, status_shrunk, status_changed,
  status_nochange, com_num_keywords, keywords, find_name, assign, max_id, shrink, init_done,
  returned, thrown, err_invalid_dataitem_name, new_window_dataitem, delete_window_dataitem,
  is_reserved_name, is_location,
}
use impact.Com.Window.Names.{All-at, find_name-assign}
use impact.Com.Window.Registered.{ends, IsPlaced, IsRegistered}

max_id-above : (m : ℕ) (items : AttrMap) → m ≤ max_id m items
unfolding max_id
max_id-above m [] = omega arith
max_id-above m ((n, a) ∷ items) =
    let next : ℕ = if ltb m (ends a) then ends a else m in
    let rest = max_id-above next items in let here : m ≤ next = ground arith in omega arith

max_id-ends : (m : ℕ) (items : AttrMap) → All (λ e. ends e.1 ≤ max_id m items) items
unfolding max_id
max_id-ends m [] = tt
max_id-ends m ((n, a) ∷ items) =
    let next : ℕ = if ltb m (ends a) then ends a else m in
    let rest = max_id-above next items in
    let here : ends a ≤ next = ground arith in (omega arith, max_id-ends next items)

placed_within :
    (last last' : ℕ) (m : AttrMap)
    → All (λ e. IsPlaced last e.1) m
    → All (λ e. ends e.1 ≤ last') m
    → All (λ e. IsPlaced last' e.1) m
placed_within last last' [] p q = tt
placed_within last last' (e ∷ m) (inl k, ps) (q, qs) = (inl k, placed_within last last' m ps qs)
placed_within last last' (e ∷ m) (inr (i, z, r), ps) (q, qs) =
    (inr (i, z, q), placed_within last last' m ps qs)

module _ (name : String) (a : WindowItem) (w : Window) (r : IsRegistered w)
    (h : find_name name w.attr_map ≡ some a) (u : com_num_keywords ≤ a.id) where
  shrink-IsRegistered :
      (s : WindowStatus)
      → IsRegistered (shrink s w)
        × ((shrink s w).attr_map ≡ w.attr_map)
        × (shrink s w).last_id ≤ w.last_id
  shrink-IsRegistered status_shrunk = elim (Bool-cases (ltb (max_id 0 w.attr_map) w.last_id)) [
    | inl less ↦ rw less (
      record {
        in_set = r.in_set;
        placed =
            placed_within w.last_id (max_id 0 w.attr_map) w.attr_map r.placed
              (max_id-ends 0 w.attr_map);
        separate = r.separate;
        above =
            let e =
              All-at (λ y. ends y.1 ≤ max_id 0 w.attr_map) name a w.attr_map h
                (max_id-ends 0 w.attr_map) in
            omega arith;
      },
      refl,
      ground arith,
    )
    | inr more ↦ rw more (r, refl, omega arith)
  ]
  shrink-IsRegistered status_changed = (r, refl, omega arith)
  shrink-IsRegistered status_nochange = (r, refl, omega arith)

  -- After `init_done`, in a registered window with an item that is not a keyword, the window is
  -- registered with the items that it had, and the next id has not grown.
  pub init_done-IsRegistered :
      IsRegistered (init_done w)
      × ((init_done w).attr_map ≡ w.attr_map)
      × (init_done w).last_id ≤ w.last_id
  unfolding init_done
  init_done-IsRegistered =
      let (r', m, l) = shrink-IsRegistered w.status in
      (
        record { in_set = r'.in_set; placed = r'.placed; separate = r'.separate; above = r'.above },
        m,
        l,
      )

shrink_to_keywords :
    (w : Window)
    → w.attr_map ≡ keywords
    → 12 < w.last_id
    → shrink status_shrunk w ≡ record w { attr_map = keywords; last_id = 12 }
unfolding max_id
shrink_to_keywords w m b = rw m (let c : ltb 12 w.last_id ≡ true = ground arith in rw c refl)

init_done_shrunk :
    (w : Window)
    → w.status ≡ status_shrunk
    → max_id 0 w.attr_map < w.last_id
    → init_done w ≡ record w { last_id = max_id 0 w.attr_map; status = status_nochange }
unfolding init_done
init_done_shrunk w s less =
    let c : ltb (max_id 0 w.attr_map) w.last_id ≡ true = ground arith in
    let shrunk : shrink status_shrunk w ≡ record w { last_id = max_id 0 w.attr_map } = rw c refl in
    ap {A = Window} (λ v. record v { status = status_nochange }) (ap (λ t. shrink t w) s ∙ shrunk)

-- In a window without panes whose status is shrunk, where the items end before the next id and the
-- vector of items has no item at their end, `init_done` lowers the next id to that end. A new item with
-- a name that is free and not reserved, a positive number of components, a known location and a known
-- type then fails the assertion on the item at that id.
pub init_done-failed_assertion :
    (address : ℕ) (aname : String) (loc : ℕ) (type : ℤ) (ncomp : ℕ) (w : Window)
    → w.status ≡ status_shrunk
    → max_id 0 w.attr_map < w.last_id
    → get_elem? w.attr_set (max_id 0 w.attr_map) ≡ some none
    → find_name aname w.attr_map ≡ none
    → is_reserved_name aname ≡ false
    → 0 < ncomp
    → is_location loc ≡ true
    → (ltb_ℤ type (negsuc 5) || ltb_ℤ (pos 21) type) ≡ false
    → new_window_dataitem address aname loc type ncomp (init_done w) ≡ thrown failed_assertion
unfolding new_window_dataitem new_dataitem
init_done-failed_assertion address aname loc type ncomp w s less at f res z l t =
    let n : (ncomp == 0) ≡ false = ground arith in
    let inside = lt_of_get_elem? w.attr_set (max_id 0 w.attr_map) at in
    let there : leb (length w.attr_set) (max_id 0 w.attr_map) ≡ false = ground arith in
    rw (init_done_shrunk w s less, res, n, l, t, f, there, at) refl

init_done_to_keywords :
    (w : Window)
    → w.status ≡ status_shrunk
    → w.attr_map ≡ keywords
    → 12 < w.last_id
    → init_done w ≡ record w { attr_map = keywords; last_id = 12; status = status_nochange }
unfolding init_done
init_done_to_keywords w s m b =
    ap {A = Window} (λ v. record v { status = status_nochange })
      (ap (λ t. shrink t w) s ∙ shrink_to_keywords w m b)

-- One object is made again at the address of the item that is there.
new_dataitem_again :
    (address id : ℕ) (s : AttrSet) (b : Entry)
    → get_elem? s id ≡ some (some b)
    → b.id ≡ id
    → new_dataitem address id 1 s
      ≡ some (set s id (some (record { address = b.address; id = id; ncomp = 1 })))
unfolding new_dataitem insert_item insert_components
new_dataitem_again address id s b at same =
    let inside = lt_of_get_elem? s id at in
    let there : leb (length s) id ≡ false = ground arith in
    let here : (b.id == id) ≡ true = ground arith in
    let address_same : (b.address == b.address) ≡ true = ground arith in
    rw (there, at, here) (rw (there, at, address_same) refl)

-- In a window without panes whose status is shrunk, whose items are the keywords with one at 12 in the
-- vector of items, and whose next id is above 12, `init_done` makes the next id 12, that of the keyword
-- "all". A new item of one component with a name that is free and not reserved, a known location and a
-- known type then gets the id 12, and `delete_dataitem` refuses it as a keyword.
pub init_done-keywords :
    (address : ℕ) (aname : String) (loc : ℕ) (type : ℤ) (w : Window) (b : Entry)
    → w.status ≡ status_shrunk
    → w.attr_map ≡ keywords
    → 12 < w.last_id
    → get_elem? w.attr_set 12 ≡ some (some b)
    → b.id ≡ 12
    → find_name aname keywords ≡ none
    → is_reserved_name aname ≡ false
    → is_location loc ≡ true
    → (ltb_ℤ type (negsuc 5) || ltb_ℤ (pos 21) type) ≡ false
    → (w' : Window) × (new_window_dataitem address aname loc type 1 (init_done w) ≡ returned w')
      × (find_name aname w'.attr_map ≡ some (record { id = 12; ncomp = 1 }))
      × (delete_window_dataitem aname w' ≡ thrown err_invalid_dataitem_name)
unfolding new_window_dataitem delete_window_dataitem
init_done-keywords address aname loc type w b s m above at same f res l t =
    let made = new_dataitem_again address 12 w.attr_set b at same in
    let entry : Entry = record { address = b.address; id = 12; ncomp = 1 } in
    let a : WindowItem = record { id = 12; ncomp = 1 } in
    let found : find_name aname (assign aname a keywords) ≡ some a =
      find_name-assign aname aname a keywords ∙ rw ((str_eq_iff aname aname).1 refl) refl in
    let w' : Window = record w {
      attr_map = assign aname a keywords;
      status = status_changed;
      attr_set = set w.attr_set 12 (some entry);
      last_id = 13;
    } in
    rw (init_done_to_keywords w s m above, res, l, t, f, made) (w', refl, found, rw found refl)
