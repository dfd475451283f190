-- ===== src/Lib.antt =====
-- Model of the TypeSpec emitter for Rust, packages/typespec-rust: the code model that the emitter
-- builds of a crate, and the generation of Rust code from it.
--
-- The parts of the program. The adapter (packages/typespec-rust/src/tcgcadapter) turns the output of
-- the compiler's library into the code model (packages/typespec-rust/src/codemodel): a crate with its
-- sub-modules, clients, methods, models, enums and unions, and the Rust types that they use. The code
-- generator (packages/typespec-rust/src/codegen) walks over the code model and emits text. Two objects
-- are shared by most of the emitting functions: `Use` collects the paths that a file needs in scope,
-- and `indentation` holds the current level. `Context` is filled once per crate with the formats of
-- the bodies that clients send and receive.
--
-- The files, with their sources under packages/typespec-rust/src:
--   Codemodel/Kinds, Types, Objects: codemodel/types.ts. A type of the emitted code is a value of
--     `RustType`, with a constructor per `kind`. Models, enums, unions and structs are shared objects
--     that may refer to each other in cycles: a type names them by a number, and `Heap` gives the object
--     of each number. Two references are the same object when the numbers are equal.
--   Codemodel/Parameters, Client: codemodel/method.ts and client.ts.
--   Codemodel/Crate: codemodel/crate.ts. `add_dependency` is `Crate.addDependency` on the list of
--     dependencies. A module is seen from below as a `ModuleContainer`, with its chain of parents.
--   Codemodel/Construct: the constructors of the types in codemodel/types.ts. `New` is a call of one;
--     `register` is what the constructor of `External` does to the crate's dependencies.
--   Naming: tcgcadapter/naming.ts, `getEscapedReservedName`.
--   Utils/Unwrap, Imports, SnakeCase: utils/utils.ts (`asTypeOf`, `unwrap`, `buildImportPath`,
--     `deconstruct`, `snakeCaseName`).
--   Codegen/UseTree, Use: codegen/use.ts. `UseNodes` are the children of a `useNode`, or the trees of a
--     `Use`; `insert` is `useTree.insert`; `add`, `add_for_type` and `use_text` are the methods of `Use`,
--     with the object before and after the call. Paths is `split` at `::`. UseTree/Parsing reads use
--     statements back; it is no part of the program.
--   Codegen/Indentation, Blocks: codegen/helpers.ts, the class `indentation` as a state that code
--     reads and moves, and the functions `buildForIn`, `buildIfBlock`, `buildMatch`, `buildWhile`.
--     The bodies that callers hand over are computations of that kind, and Blocks/Nesting nests them.
--     Code that emits text may also move another object, mostly a `Use`: `Emit S A` is such code, and
--     `+>` stands for `body +=` twice. Emission has the rules for runs of it, and for open braces.
--   Codegen/Docs: `formatDocComment`, with `comment` and `indent` of utils/utils.ts.
--   Codegen/Enums: codegen/enums.ts. Definitions, Impls, Numeric and Serde emit one enum each, Files
--     gives the three files of a module. Codegen/Module: the record of an emitted file.
--   Codegen/Declaration: `getTypeDeclaration` and `unwrapType`. UniqueName: `getUniqueVarName`.
--     Visibility: `VisibilityTracker`, `emitVisibility`, `contentPreamble`, `annotationDerive`.
--   Codegen/Context: codegen/context.ts, `recursiveAddBodyFormat` and `recursivePopulate`; TryFrom,
--     Pages and Monitors emit the trait implementations. The maps are lists with the latest entry first.
--   Codegen/HeaderTraits: codegen/headerTraits.ts, the grouping and the merging of header traits, where the
--     comparison of type objects with `===` is a parameter; Deserialization emits the bodies of methods.
--   Codegen/Encodings: codegen/helpers.ts, `getBytesEncodingMethod` and `getDateTimeEncodingMethod`.
--   Codegen/Generator: codegen/codeGenerator.ts, `recursiveEmit` and `addModelsFile`.
--   Codegen/Manifest, ModFiles: codegen/cargotoml.ts, lib.ts and mod.ts, and the sort of the
--     dependencies in codegen/codeGenerator.ts.
--   Prelude: strings as lists of UTF-16 code units with the order of `<`, `trim` and `split`, the stable sort, results that
--     may be an error (codegen/errors.ts), and decimal numerals.
--   Tests: runs at concrete inputs.
--
-- Bounds and fuel. `getUniqueVarName` loops until a candidate is free; the model gives it one round per
-- candidate, one per parameter, and one more. `recursiveAddBodyFormat` follows the fields of models in
-- cycles; with `n` models, fuel `n + 1` is enough, since each level below the first marks one more model.
-- The search of `getPageImplForType` has no end where a page item's model is nested in itself; its fuel is
-- enough where the nesting goes down in rank. The parser of use statements has fuel for the nodes.
--
-- Not modelled: the texts of models, unions, clients, header traits and documentation tests, the
-- case conversions `pascalCase` and `camelCase`, which compare words by locale, the adapter (its input is a
-- third-party library's), and the input and output of the emitter.
pub mod Prelude
pub mod Codemodel
pub mod Utils
pub mod Naming
pub mod Codegen
mod Tests
