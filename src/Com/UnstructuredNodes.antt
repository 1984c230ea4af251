-- ===== src/Com/UnstructuredNodes.antt =====
-- COM/src/Element_accessors.C and COM/include/Element_accessors.hpp: `Element_node_enumerator` and
-- `Element_node_enumerator_uns` on an unstructured mesh, which go through the connectivity tables of
-- a pane. A node number, an `int`, is a natural number, so `_start[0] >= 0` holds wherever the entry
-- is there.
pub mod Rows
use impact.Prelude.{
  ℕ, zero, suc, ◌+◌, ◌-◌, ◌*◌, ◌/◌, Option, none, some, List, [], ◌∷◌, ltb, ◌==◌, if◌then◌else◌,
}
use impact.Prelude.Runs.{Run, done, stopped, undefined, assert_failed, ◌>>=◌, at}
use impact.Com.ElementType.{SizeInfo}
use impact.Com.Pane.{Table, Tables, Lookup, found, null, failed_assertion, connectivity}

-- `_conn`, the index of `_start` in its array, and `_res`; `past_end` stands for `_conn` and `_start`
-- NULL and `_res` -1.
pub data Cursor : Type 0 where
  inside : Table → ℕ → ℕ → Cursor
  past_end : Cursor

abbrev pub largest : ℕ → ℕ → ℕ
largest a b = if ltb a b then b else a

-- The branch of the constructor for a table, where `i` starts from 0.
abbrev pub from_table : Table → ℕ → Run Cursor
from_table c i =
    if ltb i (largest c.elements 1)
    then (at c.nodes (i * c.info.size_nnodes) >>= λ first.
        done (inside c (i * c.info.size_nnodes) (c.elements - i)))
    else stopped assert_failed

-- Element_node_enumerator(const Pane *pane, int i, const Connectivity *conn): the branch of an
-- unstructured mesh with `conn` NULL.
abbrev pub located : ℕ → Lookup → Run Cursor
located i (found c) =
    if ltb i (c.offset + 1) then stopped assert_failed else from_table c (i - (c.offset + 1))
located i null = done past_end
located i failed_assertion = stopped assert_failed

unfoldable pub cursor_at : ℕ → Tables → Run Cursor
cursor_at i p = located i (connectivity i p)

-- void next(), where the table ends and where it does not
abbrev pub enter_table : Lookup → Run Cursor
enter_table (found c) = done (inside c 0 c.elements)
enter_table null = done past_end
enter_table failed_assertion = stopped assert_failed

unfoldable pub next_element : Tables → Cursor → Run Cursor
next_element p (inside c start res) =
    if res == 1
    then enter_table (connectivity (c.offset + 1 + c.elements) p)
    else done (inside c (start + c.info.size_nnodes) (res - 1))
next_element p past_end = stopped undefined

-- int size_of_nodes() const
unfoldable pub cursor_size_of_nodes : Cursor → Run ℕ
cursor_size_of_nodes (inside c start res) = done c.info.size_nnodes
cursor_size_of_nodes past_end = stopped undefined

-- int operator[](int i) const
unfoldable pub cursor_node : Cursor → ℕ → Run ℕ
cursor_node (inside c start res) i = at c.nodes (start + i)
cursor_node past_end i = stopped undefined

-- int id() const
unfoldable pub cursor_id : Cursor → Run ℕ
cursor_id (inside c start res) =
    if c.info.size_nnodes == 0
    then stopped undefined
    else done (c.offset + 1 + start / c.info.size_nnodes)
cursor_id past_end = stopped undefined

-- The loop of `vertex`: `size` nodes are left from the local index `i` on; `none` is -1.
unfoldable pub vertex_from : Cursor → ℕ → ℕ → ℕ → Run (Option ℕ)
vertex_from e lvid zero i = done none
vertex_from e lvid (suc size) i = do
  v ← cursor_node e i
  let rest = vertex_from e lvid size (suc i)
  if lvid == v then done (some i) else rest

-- int vertex(int lvid, bool level) const
unfoldable pub cursor_vertex : Cursor → ℕ → Run (Option ℕ)
cursor_vertex e lvid = do size ← cursor_size_of_nodes e; vertex_from e lvid size 0

-- The loop of `get_nodes`.
unfoldable pub nodes_from : Cursor → ℕ → ℕ → Run (List ℕ)
nodes_from e zero i = done []
nodes_from e (suc left) i = do
  v ← cursor_node e i
  rest ← nodes_from e left (suc i)
  done (v ∷ rest)

-- void get_nodes(std::vector<int> &nodes)
unfoldable pub cursor_nodes : Cursor → Run (List ℕ)
cursor_nodes e = do num_nodes ← cursor_size_of_nodes e; nodes_from e num_nodes 0

-- The type and the nodes of an element.
abbrev pub Element : Type 0
Element = SizeInfo × List ℕ

unfoldable pub element_of : Cursor → Run Element
element_of (inside c start res) = do nodes ← cursor_nodes (inside c start res); done (c.info, nodes)
element_of past_end = stopped undefined

-- for (int i = 1; i <= n; ++i, ene.next()): the loop of the callers over the elements, of which `left`
-- are left and `i` is the first, where the body reads the type and the nodes of the element.
module _ {ℓ} {S : Type ℓ} (body : ℕ → Element → S → Run S) (p : Tables) where
  unfoldable pub each_element : ℕ → ℕ → Cursor → S → Run S
  each_element zero i e s = done s
  each_element (suc left) i e s = do
    here ← element_of e
    s' ← body i here s
    e' ← next_element p e
    each_element left (suc i) e' s'
