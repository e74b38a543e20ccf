-- ===== src/Lib.antt =====
-- Verification of Flexi Config Reader, a parser and reader of hierarchical configuration files. The
-- actions of the grammar (include/flexi_cfg/config/actions.h) build maps of nodes, `Parser`
-- (src/config_parser.cpp) merges and resolves them with the helpers of src/config_helpers.cpp, and
-- `Reader` (src/config_reader.cpp) answers queries on the result.
--
-- - OrderedMap (with Assoc): `ordered_map` of include/flexi_cfg/details/ordered_map.h.
-- - Utils: the text helpers of include/flexi_cfg/utils.h. A text is a list of bytes.
-- - Types: the nodes of include/flexi_cfg/config/classes.h, as trees. Result: the exceptions.
-- - Actions: `ActionData` and an operation for each action; Actions.Rules runs them on a file, and
--   Actions.Include on a file and those that it includes.
-- - Elements, Merge, Lookup, Flat, Clean: `listElementValid`, `mergeNestedMaps`, `getConfigValue` and
--   the chains of lookups, `unflatten`, and `cleanupConfig` of src/config_helpers.cpp.
-- - Vars, Expressions: `replaceProtoVar` and `evaluateExpressions` of src/config_helpers.cpp.
-- - Parser: passes of `Parser`, `parseCommon`, and `structFromReference`. References: `resolveReferences`.
-- - Store: `resolveVarRefs`, on cells and their addresses, since it makes entries share nodes.
-- - Resolution: `resolveConfig`, which is the passes one after the other.
-- - Reader: `Reader`. Python: `getValueGeneric` of python/flexi_cfg_py.cpp, over parameters for pybind11.
-- - Math: the calculator of src/math_helpers.cpp, over any type in place of `double`.
-- - Visitor: `visitStruct` of include/flexi_cfg/visitor-internal.h, with the visitors of
--   include/flexi_cfg/visitor-json.h.
-- - Tests: the theorems at concrete inputs. Common: shared names.
--
-- These loops run on fuel: the chain of lookups, where the number of lookups in the tree, or of cells
-- in the store, plus two is enough; the substitution of environment variables, which needs more than
-- the dollar signs of the text; the references, which need more than the number of protos, plus one,
-- times the depth, plus one; the keys that are unflattened, which need more than their bytes; and the
-- files within files, at most as many as there are files. Where a tree is read from a store, the fuel
-- is the height of the tree: a store in which a struct stands below itself has no tree, and there the
-- passes after `resolveVarRefs` recurse without end. Regular expressions, the file system, PEGTL and
-- the conversions of `double` are parameters.
--
-- Nodes are trees in all passes but `resolveVarRefs`, and `clone` is deep (that of a reference is not: the
-- lists among its added entries stay shared). `resolveVarRefs` runs on a store where each node has a cell
-- of its own; the passes after it read the tree below the root, so that a node which several entries
-- share is evaluated once for each. Not modelled: that `depth` of a struct which entries share is the
-- one that the last of them sets; the grammar, which PEGTL runs; messages and logging; the
-- declarations of the Python module.
pub mod Common
pub mod Result
pub mod Utils
pub mod Assoc
pub mod OrderedMap
pub mod Types
pub mod Merge
pub mod Math
pub mod Elements
pub mod Flat
pub mod Reader
pub mod Vars
pub mod References
pub mod Expressions
pub mod Store
pub mod Resolution
pub mod Visitor
pub mod Parser
pub mod Python
pub mod Clean
pub mod Actions
pub mod Lookup
mod Tests
