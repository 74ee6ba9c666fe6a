-- ===== src/Lib.antt =====
-- open·kritt: a platform that runs workflows of prompts over a repository and keeps the findings.
--
-- The parts. A web server (backend/src) takes workflows, post-scripts and scans from a browser
-- (frontend/src), checks them and keeps them in a database, from which a worker (engine/) takes the
-- scans to run. This library models the checks and the state changes of the server, the files with the
-- settings of the engine, and the part of the browser's code that orders concurrent writes. The parts meet in the values that pass from one
-- to the next: a request body is a value of JSON (Value), a workflow's output formats are checked by
-- the walk over field definitions (Descriptor), its prompts by the scanner of references (Template);
-- a scan's configuration is what the check of investigation kinds accepts (Investigation), and the
-- readiness of its findings is read back from it (Readiness).
--
-- The files and their sources:
--   Prelude       names of the libraries, Boolean tests, lists, `Map` objects as lists of entries
--   Value         values of JSON, `String(x)`, `JSON.stringify`, reading and assigning properties
--   Text          template literals, `trim`, `startsWith`, decimals, the regular expressions of names
--   Descriptor    backend/src/lib/fieldDefinitions.js: validateFieldDefinition
--   Format        backend/src/lib/fieldDefinitions.js: normalizeFieldDefinition, normalizeOutputFormat;
--                 backend/src/lib/constants.js: duplicateOutputFormatKeys
--   Template      backend/src/lib/constants.js: scanTemplateRefs and what is built on it
--   Model         backend/src/lib/constants.js: providers, harnesses, efforts;
--                 backend/src/lib/validation.js: validateModelSelection
--   Workflow      backend/src/lib/validation.js: validateWorkflow
--   Script        backend/src/lib/validation.js: validatePostScript, validateGeneratedPostScript
--   Settings      backend/src/lib/validation.js: validatePostProcessingModelSelection,
--                 validateModelOverrides, validateScanRuntimeSettings
--   Investigation backend/src/lib/investigationKind.js, backend/src/lib/v27Pipeline.js
--   Readiness     backend/src/lib/impactReadiness.js
--   Scan          backend/src/routes/scans.js: paging, status changes, launching, deletion;
--                 backend/src/lib/validation.js: validateScanJobLimit
--   Environment   backend/src/lib/environmentFile.js
--   Runtime       backend/src/lib/runtimeSettings.js
--   Mutation      frontend/src/lib/latestMutation.js
-- A function of the source has the same name in the words of this library: validateWorkflow is
-- `validate_workflow`. What an operation pushes to a list of errors and then throws is a result,
-- `invalid` with the errors, and what it returns is `ok`. Children named Laws, and those named for
-- what they prove, hold the proofs; children named Tests hold runs on concrete inputs.
--
-- State. A table of the database is a list of rows, and a transaction is a function on the record
-- of the tables (Scan/Deletion). The optimistic queue is a record with its log; the asynchronous
-- `drain` is cut at its `await` into events, so that every interleaving of answers and clicks is a
-- list of events. The statuses of a scan move by a step relation (Scan/Moves, Scan/Life). An
-- environment file is its bytes and its mode beside a temporary file, and an operation on it is a
-- function of the two.
--
-- Bounds and recursion. Numbers are natural numbers; a number of JSON that is not a whole one from
-- 0 on is kept as its text. The nesting of field definitions is at most 4, counted down as the
-- levels that are left, so the walk ends by its structure; so do all loops here but three. The one
-- that prints a number runs on its value plus one, more than it has digits; the one that writes a
-- file in place runs on the length of the buffer plus one, as every round but the last moves the
-- offset; the one that finds the distance of the doubles at a product doubles it seven times at
-- most, enough for products of a safe integer and a number up to 100. Texts are code points; the
-- length of a model, which the source counts in UTF-16 units, is counted so (`utf16_size`). Object
-- keys keep the order in which they were defined.
--
-- Parameters. `JSON.parse` and `Number` on a text are parameters of the checks that call them; the
-- theorems hold whatever they return. The rows that a query returns are arguments. So are the
-- answers of the file system to `rename` and `write`, the codec of UTF-8, and the numbers with a
-- fraction, with what compares, reads and prints them.
--
-- Not modelled: what only moves data or calls out. In the backend these are the HTTP routes other
-- than the ones above, Prisma's queries and locks, repo.js and localRepos.js (processes and the
-- file system), the credentials and logins of providers, modelCatalog.js, findingExport.js and
-- serialize.js (rows to JSON), and the parsing of GitHub addresses by `URL`; in the frontend the
-- components and pages; and the engine, which is written in Python. Calls of the file system that
-- throw, other than a rename and the opening of a file, are left out, a write included; so are a
-- field of a record that is named `__proto__` (Mutation) and a depth of a level that is not a safe
-- integer, for which the loop over the depths of `validateWorkflow` runs up to the depth
-- (Workflow). The locks and the statements of the database that fail are left out too.
pub mod Prelude
pub mod Value
pub mod Text
pub mod Descriptor
pub mod Template
pub mod Model
pub mod Investigation
pub mod Readiness
pub mod Scan
pub mod Format
pub mod Workflow
pub mod Script
pub mod Settings
pub mod Environment
pub mod Runtime
pub mod Mutation
