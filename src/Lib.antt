-- ===== src/Lib.antt =====
-- IMPACT couples the solvers of a multi-physics simulation. Its component object manager COM keeps
-- the meshes and the data of all solvers in windows of panes; the simulation layer SIM orders the
-- actions of a coupled run by the data that they read and write, and calls them. The actions reach
-- the data by the names that COM resolves to handles. SolverUtils has tables of meshes for solvers.
-- This library models the schedulers of SIM, of COM the element types, the enumerators of elements,
-- facets and nodes, the tables of names, the windows and the arrays of data items, and of
-- SolverUtils the class of tables, and of SurfMap the dual connectivity and the borders of a pane.
--
-- Sim: the schedulers (SIM/src, SIM/include)
--   Sim/Item       `Scheduler::ActionItem` in a heap of items by address: `has_input`, `has_output`,
--                  `fulfilled`
--   Sim/Register   the state of `Scheduler`, `add_action`, `reads`, `writes`, `Action::declare`;
--                  Register/Valid: the invariant of registration; Register/Declared: what it stores
--   Sim/Ddg        `DDGScheduler::buildDDG` and `sanityCheck`; Ddg/Steps: its links as steps on the
--                  heap; Ddg/Run: the code takes only such steps; Ddg/Links: double links;
--                  Ddg/Coverage: what a run leaves linked; Ddg/Hang: runs on any fuel;
--                  Ddg/Matched: actions whose data have one reader and one writer each; Ddg/Search,
--                  Ddg/Fill, Ddg/Pool and Ddg/Total: the loops on such actions, from the search of
--                  the pool to the whole run
--   Sim/Topo       `topological_sort`; Topo/Order: its order; Topo/Total: how it ends; Topo/Cycle
--   Sim/Lifecycle  `schedule` of `DDGScheduler` and `UserScheduler`, `init_actions`, `run_actions`,
--                  `finalize_actions`; Lifecycle/Reach: the states that the methods reach;
--                  Lifecycle/Scheduled, Lifecycle/Total and Lifecycle/Sessions: what they establish
--   Sim/Coupling   `Coupling` with the schedulers of its agents: `schedule`, `init`, `run`, `finalize`;
--                  Coupling/Stages: the stages that the schedulers go through; Coupling/Session
-- Com: the object manager (COM/src, COM/include)
--   Com/ElementType      the table `_sizes` and `get_size_info` of Connectivity.C
--   Com/Facets           `Facet_node_enumerator` of Element_accessors.C
--   Com/StructuredNodes  `Element_node_enumerator` of the same file, structured meshes of 2 dimensions
--   Com/UnstructuredNodes `Element_node_enumerator` on unstructured meshes; UnstructuredNodes/Rows: the
--                        elements that it goes through
--   Com/PaneNodes        `Pane_node_enumerator` of Pane_node_accessors.C, structured meshes
--   Com/Connectivity     the sizes of structured meshes of Connectivity.C
--   Com/ObjectMap        `COM_map` of maps.hpp
--   Com/DataType         `COM_Type`, `get_sizeof` and `compatible_types` of DataItem.C
--   Com/DataItem         `set_size`, `set_pointer`, `deallocate`, `get_addr`, `copy_array` and
--                        `append_array` of DataItem.C; DataItem/Copy with its children: what is copied
--   Com/ItemSizes        `size_of_items` and the other sizes of DataItem.C, through panes and parents
--   Com/ItemSet          `_attr_set` of Pane.C: `new_dataitem`, `insert` and `delete_dataitem`
--   Com/Window           the names and ids of a window's items, ComponentInterface.C: `new_dataitem`,
--                        `delete_dataitem`, `init_done`; Window/Registered: which places they take
--                        and what `_dummy` has there;
--                        Window/Names, Window/Kept, Window/Entered, Window/Deleted, Window/Done: what
--                        each call does
--   Com/Pane             `refresh_connectivity` and `connectivity` of Pane.C
-- Mesh: the tables of meshes (SolverUtils/src, SolverUtils/include)
--   Mesh/Table     the class `Connectivity` of Mesh.H and Mesh.C; Table/Cached: its count and its sizes
--   Mesh/Dual      `Inverse`, `InverseDegenerate` and `MaxNodeId`; Dual/Counts, Dual/Inverse: entries
--   Mesh/Neighbors `GetNeighborhood`, `GetAdjacent` and `ElementsOn`; Neighbors/Gathered: their loops,
--                  Neighbors/Shared, Neighbors/Unique: what they list
--   Mesh/Renumber  `BreadthFirstRenumber`; Renumber/Marks, Renumber/Permutes: its numbers
--   Mesh/Modes     `graph_mode` and `matrix_mode`; Modes/Inverse: one after the other
--   Mesh/Orient    `ReOrient` of the two element classes; Orient/Twice: its results
--   Mesh/Coordinates  `NodalCoordinates` and its arrays; Coordinates/Owned: which of them are there
-- SurfMap: the maps of shared nodes (SurfMap/src, SurfMap/include)
--   SurfMap/Dual     `Pane_dual_connectivity` of Dual_connectivity.C; Dual/Pairs, Dual/Counted,
--                    Dual/Buckets: its loops and its arrays; Dual/Above, Dual/Incident: what it returns
--   SurfMap/FacetId  `Facet_ID` of Simple_manifold_2.h; FacetId/Coded: its parts
--   SurfMap/Borders  `determine_border_nodes_3` and `determine_isolated_nodes` of Pane_boundary.C;
--                    Borders/Keyed, Borders/Parity, Borders/Corners, Borders/External: the faces that
--                    are left;
--                    Borders/Isolated: the nodes that are left
-- Prelude: what these share; Prelude/Runs: how a function ends; Sim/Tests, Com/Tests, Mesh/Tests,
-- SurfMap/Tests and their children: small inputs.
--
-- State. A pointer to an item or an action is a number, `nullptr` is `none`, and the methods of the
-- schedulers pass the heap and the record of the scheduler on. `COM_abort_msg`, an undefined access
-- and an exception end a method with a value of `Result`, `Outcome` or `Run`. Virtual methods of an
-- action are recorded as calls in their order, and a `double` is of a parameter type. `copy_array`
-- works on a memory of bytes by their addresses.
--
-- Fuel. `ddg_loop` takes a unit for each round of the loop of `buildDDG`, which need not end: running
-- out is the error `out_of_fuel`. Where each datum has one reader and one writer, twice the number of
-- actions is enough. `topo_loop` has the length of its pool, of which each round takes an item.
-- `drain` takes one for each entry of the
-- queue of `BreadthFirstRenumber`, of which there are fewer than elements; `max_node_id` takes one
-- for each round of a loop of `MaxNodeId` that does not end.
--
-- Not modelled: the printing of schedules and `discoverSets`, which is not called; what agents and
-- interpolation do by calls of COM and of loaded modules, of which the initialisation of an agent
-- and `max_timestep` are parameters; the control of predictor and corrector; the registry of
-- windows, what the panes of a window do, the bindings for C, Fortran and MPI; the dual connectivity
-- and the border of structured meshes; arrays of data items that come from a parent, `allocate` and
-- `inherit`; the faces of elements in Mesh.C; SimIO, Simpal, the rest of SolverUtils, SurfMap,
-- SurfUtil and SurfX, which are floating-point computations, file formats and communication. An
-- `int` has no bound here, and a count, an index or a stride that the code keeps from being negative
-- is a natural number.
pub mod Prelude
pub mod Sim
pub mod Com
pub mod Mesh
pub mod SurfMap
