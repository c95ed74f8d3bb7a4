-- ===== src/Lib.antt =====
-- jorm: an object-relational mapper for Go. A query is a chain of calls on a builder, which a
-- dialect turns into a statement for one of five databases; the statement goes through the
-- middlewares registered with the DB, and is run on a pool of connections.
--
-- Base and the files below it: lists, texts, numbers and options, and the values of statements.
--
-- Model.antt is model/field.go and model/model.go: the types of Go as far as the dialects look at
-- them, the fields and the models. Model/Naming is camelToSnake of model/model.go, on ASCII names.
-- Model/Tag is model/tag.go. Model/Parse is parseModel and what it calls in model/model.go: a
-- struct is a tree of its fields with their tags, and which type is time.Time, what TableName()
-- returns, and how Sscanf reads a size are parameters. Model/Relation, Relations and RelationCache
-- are model/relation.go; the loop of GetRelation has a list of rounds, each with the version that
-- is loaded first, the cache as its entry is loaded, and the cache after the parsing, since other
-- goroutines work on it. Model/Get is GetModel with its cache, which compares types by a parameter.
-- Model/Splits and TagTexts say how the texts of tags are cut; ParseLaws, GetLaws and TagTexts hold
-- theorems and lemmas.
--
-- Dialect.antt is dialect/dialect.go: the interface as a record of functions. Dialect/Mysql,
-- Postgres, Sqlite3, Sqlserver and Oracle are the files of the same names under dialect/, one
-- function for each method; Dialect/Placeholders holds the loops that they share, Dialect/Rows the
-- loops of ParseColumns and ParseIndexes, whose rows are lists of what is scanned or of a failure,
-- Dialect/Registry the map of Register, Get and init. Dialect/Laws says what the builder relies on
-- in a dialect. A panic of DataTypeOf is `none`.
--
-- Builder and the files below it are core/builder.go. Builder/State: the struct, Reset, NewBuilder,
-- PutBuilder, Clone and the setters. The pool is a list, whose first builder is taken.
-- Builder/Joins: isValidJoinClause. Builder/Replace: replacePlaceholders, whose loop has fuel for
-- one round for each `?` and one more, which Builder/Numbering shows to be enough. Builder/Build:
-- BuildSelect, BuildInsert, BuildUpdate, BuildDelete, each the text and then the arguments; a map
-- of values is a list of keys and values. Builder/Calls: the chains of calls. Builder/Balance,
-- Statements, Chains, Reuse and Inserts are the theorems.
--
-- Core and the files below it are the engine. Core/Health: checkHealth and reportError of
-- core/db.go. Core/Retry: the ping loop of Open in core/db.go, whose recursion is on the rounds
-- that are left. Core/Open: Open itself, where the pool is the list of the calls made on it.
-- Core/Transaction: Transaction of core/db.go, with database/sql as a record of its calls.
-- Core/Chain: executeWithMiddleware of core/query.go and Use of core/db.go. Core/Tx: the methods of
-- core/tx.go. Core/Migrate: Init, Migrate and Rollback of core/migration.go. Core/Schema:
-- AutoMigrate, HasTable, alterTableIfNeeded and syncIndexes of core/db.go, with the pool and Exec
-- as a record of functions; Core/IndexRows joins it to the ParseIndexes of Postgres. Core/Paginate:
-- the arithmetic of Paginate in core/query.go, with the wrap-around of 64 bits.
--
-- Middleware/Breaker is middleware/circuit_breaker.go, in the two parts in which Process holds the
-- lock; the files below it have its runs and theorems. Middleware/Cache is
-- middleware/memory_cache.go: Ttl reads the lifetime, Key is the key of a query, Memory is Process
-- and cleanup; a request runs alone. Middleware/Cache/File is middleware/file_cache.go, with the
-- files and the JSON of an entry as a record of functions, and Middleware/Cache/Redis is
-- middleware/redis_cache.go, with the client of Redis as one. The JSON encoding and decoding, and
-- what next returns, are fields of a request. Middleware/SlowLog is middleware/slow_log.go, whose
-- elapsed time is an argument, and Middleware/Tracing is middleware/tracing.go.
--
-- Logger.antt is logger/logger.go: a writer is a number, a level too, and what is written is a
-- list; Sprintf, the JSON and the formats of times are parameters.
--
-- Generator and the files below it are cmd/jorm-gen/main.go. Generator.antt: snakeToCamel, mapType
-- and generateTag. Generator/Rows: fetchAllTables, fetchForeignKeys and fetchTableInfo on what the
-- catalog answers. Generator/Files: the template, generateModel and main, on a disk that is a
-- function from paths to texts. NameWords, NameLaws, TagParts, TagSets, TagLaws and FileLaws are
-- the theorems and their lemmas; the tags are read back by Model/Tag and the names by Model/Naming.
--
-- Validator is validator/validator.go, and Required, MinLen and MaxLen of validator/rules.go: the
-- shared part of the rules, Validate of a map of rules, and Check, for which what findField finds
-- is a parameter. Validator/Errors: ValidationErrors, findField, and Validate of a list of
-- validators. Validator/Patterns holds the regular expressions of validator/rules.go with a matcher
-- by derivatives, and Validator/Rules its other rules; floating-point numbers and the parsers of
-- the standard library are parameters.
--
-- Preload and the files below it are core/preload.go. Preload/Keys: the values by which objects are
-- related. Preload/Groups: the maps made of rows, as lists of keys and values. Preload/Load:
-- queryHasRelationData, queryBelongsToData and queryManyToManyData. Preload/Execute: execute,
-- executeHasRelation, executeBelongsTo, executeManyToMany, executeNested and executePreloads; what
-- reflection does to the objects is a record of functions for each relation, and the rows that the
-- database answers are a function of the statement. The path of a preload is a chain of relations
-- that were looked up before. An object that several fields point to is a value in each. Selected,
-- References, Laws and Joined are the theorems.
--
-- Query and the files below it are the operations of core/query.go, each the last step that the
-- middlewares wrap. Query/Step: what they share, a state with the world of the database, the health
-- of the DB, the last statement and the caller's objects, and steps that end with an answer, an
-- error or a panic. Query/Values: getModelValues and setPKValue. Query/Write: Insert, Update and
-- Delete. Query/Batch: BatchInsert. Query/Scan: getScanPlan, whose cache changes nothing, and
-- TimeScanner. Query/Read: First, Find, Count, Sum and ExecResult, with queryRow and queryRows; an
-- error ends a Find, and what it has appended until then is not looked at. The executor and what
-- reflection does to an object are records of functions; the hooks of model/hooks.go are functions
-- of the object. Query/Fluent: the Query itself, with the methods that put it together, each of
-- which calls the builder, and the validators before Insert and Update. Query/Paged: First, Find,
-- Count, Paginate, Scan and Exec on a Query, with no middleware registered and nothing to preload.
-- Query/Fill: scanRowWithPlan, setFieldValue and getConverter, and scanRow of core/preload.go.
-- Once, Laws, Stored, BatchLaws, ReadSteps, ReadLaws and PagedLaws are the theorems and their
-- lemmas.
--
-- Times and durations are natural numbers of nanoseconds after a start; clocks do not run
-- backwards. Lengths and counts are natural numbers. Texts are sequences of characters, and
-- to_upper and to_lower change the ASCII letters.
--
-- Not modelled: the copying and converting of the results of middlewares (core/query.go) and the
-- lookup of relations by reflection in core/preload.go, since both only pass values through
-- reflect; the accessors of model/model.go; Close and SetLogger of core/db.go; pool/, which only
-- wraps database/sql; the goroutines that clean the caches. Database drivers, JSON and the standard
-- library of Go are outside of the repository.
pub mod Base
pub mod Model
pub mod Preload
pub mod Query
pub mod Dialect
pub mod Builder
pub mod Core
pub mod Generator
pub mod Logger
pub mod Middleware
pub mod Validator
