-- ===== src/Com/Pane.antt =====
-- COM/src/Pane.C: the connectivity tables of a pane, in the order in which they were made, and the
-- element numbers that they cover.
pub mod Numbered
use impact.Prelude.{
  ℕ, ◌+◌, String, Bool, ◌&&◌, Option, none, some, List, [], ◌∷◌, ltb, leb, if◌then◌else◌,
}
use impact.Com.ElementType.{SizeInfo}

-- A table: its name, the sizes of its elements, the array at `pointer()`, its offset and the numbers
-- of its elements that the methods of `Connectivity` return.
pub record Table : Type 0 where
  pub name : String
  pub info : SizeInfo
  pub nodes : List ℕ
  pub offset : ℕ
  pub elements : ℕ
  pub ghosts : ℕ

-- What `refresh_connectivity` sets: the tables and the sizes of the item COM_CONN.
pub record Tables : Type 0 where
  pub cnct_set : List Table
  pub nelems : ℕ
  pub ngelems : ℕ

-- The loop of `void Pane::refresh_connectivity()`, for a pane whose COM_CONN has no parent. The sums are
-- never negative here, and the numbers of COM_NC, set behind the loop, are no part of the tables.
unfoldable pub refresh : ℕ → ℕ → List Table → Tables
refresh nelems ngelems [] = record { cnct_set = []; nelems = nelems; ngelems = ngelems }
refresh nelems ngelems (c ∷ cs) =
    let rest = refresh (nelems + c.elements) (ngelems + c.ghosts) cs in
    record rest { cnct_set = record c { offset = nelems } ∷ rest.cnct_set }

abbrev pub refresh_connectivity : List Table → Tables
refresh_connectivity cs = refresh 0 0 cs

-- int dimension() const
abbrev pub pane_dimension : List Table → ℕ
pane_dimension [] = 0
pane_dimension (c ∷ cs) = c.info.size_dim

-- Connectivity *Pane::connectivity(Size i)
abbrev pub covers : Table → ℕ → Bool
covers c i = ltb c.offset i && leb i (c.offset + c.elements)

unfoldable pub table_of : ℕ → List Table → Option Table
table_of i [] = none
table_of i (c ∷ cs) = let rest = table_of i cs in if covers c i then some c else rest

pub data Lookup : Type 0 where
  found : Table → Lookup
  null : Lookup
  failed_assertion : Lookup

abbrev pub of_option : Option Table → Lookup
of_option none = null
of_option (some c) = found c

unfoldable pub connectivity : ℕ → Tables → Lookup
connectivity i p =
    if ltb p.nelems i
    then (if leb i (p.nelems + 1) then null else failed_assertion)
    else if ltb i 1
    then failed_assertion
    else of_option (table_of i p.cnct_set)
