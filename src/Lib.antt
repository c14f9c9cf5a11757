-- ===== src/Lib.antt =====
-- Verification of DB-All.e, the database of point-based weather observations.
--
-- The values of the program are dates, coordinates, levels and time ranges (dballe/types.h and
-- dballe/types.cc), which identify the variables that messages and the database hold. Containers
-- keep variables and contexts in sorted vectors (dballe/values.cc, dballe/msg/msg.cc,
-- dballe/core/smallset.h), queries select data by ranges of the values (dballe/core/query.cc), and
-- rows of them are exchanged as CSV (dballe/core/csv.cc). A query is made from ranges, and the test
-- of whether it narrows another calls the `contains` of each range; a matcher is made from a query
-- (dballe/core/matcher.cc). Data is written to the database in batches (dballe/db/v7/batch.cc), which
-- keep the rows that the database has in the sets of smallset.h, and variables as bytes
-- (dballe/core/values.cc). Reports are found by id and by name (dballe/db/v7/repinfo.cc).
--
-- Prelude: results that may be exceptions (Prelude/Errors), native lists (Prelude/Lists), integers
-- and their machine widths (Prelude/Int, Prelude/Words), tests (Prelude/Tests) and the orders of
-- std::tie (Prelude/Order).
-- Date, Time, Datetime, DatetimeRange: the structs of the same names of dballe/types.cc.
-- Coords, LatRange, LonRange, Level, Trange: the same.
-- SortedVector: the loops that SmallSet, Values and Contexts share: insertion sort, and the two
-- binary searches. SortedVector/Map and SortedVector/Update show that a sorted vector acts as a finite map.
-- SmallSet: the class template of dballe/core/smallset.h and the sets made of it.
-- Values: ValuesBase of dballe/values.cc.
-- Contexts: the contexts of a message, Contexts of dballe/msg/msg.cc and Context::compare of
-- dballe/msg/context.cc.
-- Csv: CSVReader::next, CSVReader::unescape, csv_output_quoted_string and CSVWriter::add_value.
-- Query: core::Query of dballe/core/query.cc.
-- Encoding: the Encoder and Decoder of dballe/core/values.cc, encode and decode of dballe/values.cc.
-- Matcher: Matcher::create and the matchers of dballe/core/matcher.cc.
-- Pending: the rows that wait to be written, which StationData and MeasuredData of
-- dballe/db/v7/batch.cc share. Pending/Known is their abstract view: a map from codes to ids.
-- Tables: the rows and the interface of the database tables that the batch calls (dballe/db/v7/utils.h,
-- station.h and data.h), and Tables/Sqlite `insert` of dballe/db/v7/sqlite/data.cc, with its sort.
-- BatchStation: StationData, MeasuredData and Station of dballe/db/v7/batch.cc.
-- Batch: Batch of the same file. Batch/Reachable has its calls as steps.
-- Transaction: insert_station_data and insert_data of dballe/db/v7/transaction.cc.
-- LevTrCache: the cache of dballe/db/v7/cache.cc, which makes ids of levels and time ranges.
-- Repinfo: the cache and the index of names of dballe/db/v7/repinfo.cc.
-- RepinfoUpdate: the update of it from the rows of a file.
-- Examples: the theorems at concrete inputs.
--
-- A struct is a record, a method that changes its object returns the new record, and an exception
-- is an `err` without its message. An `int` is a ℤ with its wrap-around written out where the code
-- can reach it, an unsigned field a ℕ. A missing field is the value that the code uses: 0xffff,
-- 0xff or MISSING_INT. Degrees are the integers of 1e-5 degrees that ll_to_int makes of them.
--
-- The binary searches run on fuel, one more than the length of the vector: each round at least
-- halves the part that is left, and the lemmas on the searches show that the fuel is not used up.
-- Context::compare is read on fields that are not negative, where its differences do not overflow.
-- The decoder of variables runs on fuel for each byte. Julian days and CSV text are read by structural
-- recursion or in closed form.
--
-- wreport::Var and std::sort are not in the repository. A variable is of any type with a code, and
-- std::sort any function that returns the same items in order. The database is a state that the tables'
-- functions change; a call of a batch that one of them stops has no state after it.
--
-- Not modelled: text in ISO 8601 and JSON, printing, the database engines, the importers and
-- exporters of BUFR and CREX, which rest on wreport, the statements of SQL, and the bindings.
pub mod Prelude
pub mod Date
pub mod Time
pub mod Datetime
pub mod DatetimeRange
pub mod Coords
pub mod LatRange
pub mod LonRange
pub mod Level
pub mod Trange
pub mod SortedVector
pub mod SmallSet
pub mod Values
pub mod Csv
pub mod Encoding
pub mod Contexts
pub mod Query
pub mod Matcher
pub mod Pending
pub mod Tables
pub mod BatchStation
pub mod Batch
pub mod Transaction
pub mod LevTrCache
pub mod Repinfo
pub mod RepinfoUpdate
pub mod Examples
