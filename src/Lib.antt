-- ===== src/Lib.antt =====
-- simvacation: a vacation program. A mail system calls it for a recipient with a message on its
-- standard input; it decides whether the message gets a reply, and if so prints one to a sending
-- command that it starts.
--
-- The parts, and the files that model them:
--   simvacation.c, main: Main. It reads its options (what getopt returns is an argument), the
--     configuration, and chooses a database and a lookup; it looks the recipient up, reads the
--     message's header, tests the sender, asks the database for a recent reply, stores the reply and
--     sends it. A run is a function from the state outside to an Outcome: the exit code, the mail
--     that was handed over, and the state behind it, or a crash where the code reads NULL. Each `goto
--     done` is `quit`, and each function is named for the test that it makes.
--   simvacation.c, readheaders, check_header and append_header: Headers. The loop's local variables
--     are the record Scan; the buffer of 1000 bytes keeps what stood in it behind the line that was
--     read last, since the code can look there.
--   simvacation.c, pretty_sender and send_message, and vutil.c, pexecv: Reply. The answers of the
--     operating system are the record System; what is printed is a list of bytes.
--   vutil.c, canon_from and check_from: Sender; is_substring: Substring.
--   vdb.c, vdb.h: Vdb; vdb_lmdb.c: Vdb/Lmdb, with LMDB itself as the parameter Mdb in Vdb/Mdb.
--   rabin.c: Rabin, with its eight tables.
--   vdb_redis.c: Vdb/Redis, with liburcl and the server as the parameter Urcl in Vdb/Urcl.
--   simunvacation.c, the program that cleans up: Unvacation.
--   vlu.c, vlu.h: Vlu. vlu_ldap.c: Vlu/Ldap, whose times and window are in Vlu/Window, with libldap as
--     the parameter Directory in Vlu/Directory. The structure behind the handle is a part of the
--     state that the functions of the lookup pass on.
--   vutil.c, read_vacation_config: Config/Reading, with libucl as the parameter Ucl in Config/Ucl. The
--     configuration as the others ask for it: Config.
--   yasl.c, a copy of another project's library: the parameter Yasl, a record of the operations that
--     the program calls with the laws that its comments state. Yasl/Reference has the functions that
--     the laws are stated with, and Tests/Model a library that meets them.
--   The C library's functions on strings, in the C locale: CString; on times, in UTC: CTime.
--   Tests runs the code at inputs; Tests/UnitVutil has every case of test/unit_vutil.c.
--
-- How the parts meet: a database and a lookup are records of functions (VdbBackend, VluBackend) over
-- one type of states, so that main can be taken with any of them. Main/Memory has the contract that
-- main relies on a database for; Main/Lmdb and Main/Redis/Keeps fill it. Main/Interval puts
-- vdb_lmdb.c in, Main/Ldap vlu_ldap.c, Main/Ldap/Default both vlu_ldap.c and vdb_redis.c, which are
-- what simvacation.conf names, and Main/Settings read_vacation_config. Main/Exit has the causes of each
-- exit code.
--
-- Bytes are numbers below 256, strings are lists of bytes without the NUL behind them, and a pointer
-- into a string is an offset. NULL is `none`. A test `f(…) == 0` of a comparison is a Boolean.
-- Times are natural numbers and their sums are not cut: the code's time_t overflows only behind the
-- year 292277026596, or where a text in Redis that this program has not written stands for a greater
-- number, which the model does not follow. The fingerprint is cut to 64 bits where the code's shift loses bits.
--
-- Bounds: the loop over the header runs on fuel, one more than the bytes of the input, and each round
-- reads at least one byte. A number of 64 bits has at most 16 hexadecimal digits, and one of 63 bits
-- at most 19 decimal ones; each is the fuel of its conversion.
--
-- Outside of the code: the directory's answers do not change in a run, and no time passes on the Redis
-- server while a run goes on; between two runs it may.
--
-- Not modelled: logging and memory (allocations succeed, but for those whose failure is tested); the
-- buffer of 64 bytes for the filter in ldap_vlu_search, which is taken to hold it; yasl.c, a copy of
-- another project's library, which is a parameter; genimbed.c, which the build runs.
mod Common
pub mod CString
pub mod Yasl
pub mod Sender
pub mod Substring
pub mod Headers
pub mod Rabin
pub mod Config
pub mod Vdb
pub mod CTime
pub mod Vlu
pub mod Reply
pub mod Main
pub mod Unvacation
mod Tests
