-- ===== src/Lib.antt =====
-- Topy, a server that counts events of users and ranks them: a model of its core.
--
-- A command names users, a field and, for a selection, a where clause. The words parser
-- (src/words_parser.cc) cuts it into words; the where clause becomes an expression
-- (src/expr_bool.cc) over the group and the id of a user, its group filters looked up in the registry
-- of groups (src/groups.cc). Every user has fields (src/field.cc), each of them vectors of samples
-- that slide with the time of the timer (src/timer.cc). A ranking (src/top.cc) runs over the users
-- that pass the filter and keeps the best by the score of a field.
--
-- Which file models which part:
--   Top          src/top.cc, src/top.hh and the loop of VectorUsers::top in src/users.cc. find_user,
--                del, add_item and inverse_scores are the methods of TopBase; normalize, add and
--                finalize those of Top. Top/Sort is std::list::sort with compare_items.
--   StatsVector  the class template StatsVector of src/field.cc, its parameters as fields of the
--                record. A sample is the number that its bits stand for, and a store converts.
--                StatsVector/Dump is its text form and RESTORE_VECTOR.
--   Events       INC_OR_EXPAND and FieldEvents of src/field.cc.
--   Marks        FieldMarks of src/field.cc; a division that stops the program is `none`.
--   Values       FieldInt and FieldTimestamp of src/field.cc, with the numbers of src/stringutils.cc.
--   Field        the class Field with its subclasses as one type, its rules, and User::fields_init.
--   Fields       src/fields.cc; Fields/Frozen is the registry together with the fields of the users.
--   Decimal      what the streams of the language write and read for an integer.
--   Parser       src/parser.cc. In the modules Dump a dump is the text in front of what follows it.
--   Logs         FieldUlog and FieldLog of src/field.cc, which have the same methods.
--   Timer        src/timer.cc; what time and gmtime answer is the argument Clock.
--   Groups       src/groups.cc, over StdMap, which is std::map as an ordered list of entries.
--   StringUtils  src/stringutils.cc.
--   WordsParser  src/words_parser.cc; the stream is the text that is left.
--   Expr         src/expr_bool.cc: ExprBool with its method get, and in Expr/Parser the ExprParser.
--   Filter       src/filter.cc.
--   Report       the class ReportField with its subclasses of src/field.cc, and VectorUsers::report.
--   Sets         the sets by name of src/users_sets.cc, and so the contests of src/contests.cc.
--   Contest      src/contest.cc.
--   Server       dump_txt and restore_txt of src/server.cc; a file is its text.
--   Client       the class Client of src/events.cc with its callbacks, and src/client_thread.cc; in
--                Client/Lifetime a session is a client and the number of its threads.
--   Users        src/users.cc and the state of src/user.cc: User, VectorUsers and Users over a heap of
--                users by address; Users/Ranking is VectorUsers::top and VectorUsers::rank.
--   Prelude      the shared tests, lists, texts and integers; Tests the theorems at given inputs.
-- The children of a module hold what is proved of it, and are named for that.
--
-- Bounds and fuel. Numbers of 8, 32 or 64 bits wrap where the source's do: count of a vector modulo
-- 2^8, `unsigned int` modulo 2^32, and a value is converted to `int` by wrapping. The expression parser
-- alone works on fuel; `out_of_fuel` is no result of the program, and twice the number of characters
-- that are left is enough. A pop of an empty stack is the outcome `fault`, a putback at the end of a
-- dump, a null pointer and an iterator of an erased entry the outcome `undefined` or `broken`, the
-- exception of waitfor `threw`, and `stopped` where a restore leaves what it has done so far.
--
-- Parameters. What uninitialised memory holds (new vectors, the worst score of a new ranking, the entry
-- behind the table of years), what the clock and a trylock answer, the hash table of GLib, the classes of
-- bytes above 127 in the words parser, the order in which the compiler evaluates the two pops of a
-- binary operator, and what an integer holds after the extraction from a stream has failed.
--
-- Not modelled: sockets, threads, events and files (the rest of src/server.cc and src/events.cc,
-- src/threads.cc, src/udp.cc, src/replicator.cc, src/log.cc), which are input and output, and so the
-- interleavings of threads inside one operation; the binary dumps (src/dump_bin.cc,
-- src/serializer.cc), src/users_parser.cc, src/config_file.cc, the counters of commands
-- (src/stats.cc), and all output for PHP and for people; the commands (the methods parse_query);
-- floating point (StatsVector::multiply, FieldMarks::summary).
pub mod Client
pub mod Contest
pub mod Decimal
pub mod Events
pub mod Expr
pub mod Field
pub mod Fields
pub mod Filter
pub mod Groups
pub mod Logs
pub mod Marks
pub mod Parser
pub mod Prelude
pub mod Report
pub mod Server
pub mod Sets
pub mod StatsVector
pub mod StdMap
pub mod StringUtils
pub mod Tests
pub mod Timer
pub mod Top
pub mod Users
pub mod Values
pub mod WordsParser
