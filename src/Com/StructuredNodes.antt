-- ===== src/Com/StructuredNodes.antt =====
-- COM/src/Element_accessors.C and COM/include/Element_accessors.hpp: `Element_node_enumerator` on a
-- structured mesh of two dimensions, with `size_i` nodes in a row. Element and node numbers start
-- from 1. The fields are `_base` and `_res`; a failed assertion is `none`.
pub mod Visits
use impact.Prelude.{
  ℕ, ◌+◌, ◌-◌, ◌*◌, ◌/◌, ◌%◌, ◌&&◌, ◌||◌, Option, none, some, leb, ltb, ◌==◌, if◌then◌else◌,
}

pub record Enumerator : Type 0 where
  pub base : ℕ
  pub res : ℕ

-- Element_node_enumerator(const Pane *pane, int i, const Connectivity *conn): the branch of a
-- structured mesh of two dimensions.
unfoldable pub at_element : (size_i size_of_elements i : ℕ) → Option Enumerator
at_element size_i size_of_elements i =
    if leb 1 i && leb i size_of_elements
    then some (record { base = i + (i - 1) / (size_i - 1); res = (i - 1) % (size_i - 1) })
    else none

-- Element_node_enumerator(const Pane *pane, const std::pair<int, int> &id)
unfoldable pub at_pair : (size_i size_j first second : ℕ) → Option Enumerator
at_pair size_i size_j first second =
    if (ltb 0 first && leb first size_i) && (ltb 0 second && leb second size_j)
    then some (record { base = (second - 1) * size_i + first; res = first - 1 })
    else none

-- void next()
unfoldable pub next : ℕ → Enumerator → Enumerator
next size_i e =
    if e.res + 1 == size_i - 1
    then record { base = e.base + 1 + 1; res = 0 }
    else record { base = e.base + 1; res = e.res + 1 }

-- int id() const
unfoldable pub id : ℕ → Enumerator → ℕ
id size_i e = e.base - (e.base - 1) / size_i

-- int operator[](int i) const
unfoldable pub node : ℕ → Enumerator → ℕ → ℕ
node size_i e i =
    let t = if ltb 1 i then e.base + size_i else e.base in if i == 1 || i == 2 then t + 1 else t

-- int vertex(int lvid, bool level) const, up to the search across a branch cut: `none` where the
-- node is none of the four.
unfoldable pub vertex : ℕ → Enumerator → ℕ → Option ℕ
vertex size_i e lvid =
    if lvid == e.base
    then some 0
    else if lvid == e.base + 1
    then some 1
    else if lvid == e.base + size_i
    then some 3
    else if lvid == e.base + size_i + 1
    then some 2
    else none
