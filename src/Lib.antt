-- ===== src/Lib.antt =====
-- ZeroTrust, a network scanner: its vulnerability matching and its script language, verified.
--
-- The program scans hosts, takes the product and version of a service from its banner, looks them
-- up in a database of CVEs, and asks a table of distribution fixes whether the installed package is
-- already patched (src/scan/cve.cpp). Scripts in a small language, ZTL, add checks of their own
-- (src/ztl), and share what they learn of a host in a knowledge base (src/core). The findings of all
-- parts are merged before they are reported (src/include/finding.h).
--
-- Parts, files and correspondence. Functions and fields keep the source's names, in snake case.
--   Base              list, text and outcome helpers; isdigit, isalpha, tolower, find, rfind,
--                     getline and to_string of the C and C++ libraries; doubles as a parameter
--   Finding           src/include: severity.h, confidence.h, protocol.h, port.h, finding.h; Dedup is
--                     deduplicate_findings
--   Version           src/scan/cve.cpp, VersionMatcher: parse, compare, in_range
--   Dpkg              src/scan/cve.cpp: dpkg_compare_str, parse_dpkg_version, dpkg_compare
--   Backport          src/scan/cve.cpp: load_distro_fixes, parse_distro_tag, check_backport. The two
--                     global tables are the record FixTable
--   Cve               src/scan/cve.cpp: load_database, lookup, match, verify_version; Report is
--                     check_port, Native is run_native_checks. The global cve_database is a list
--   Lexer             src/ztl/token.hpp and lexer.cpp; the position in the text is the text that is left
--   Parser            src/ztl/ast.hpp and parser.cpp; the position is the current token and those
--                     that follow it, so there is always one. The recursion between expressions,
--                     blocks and `if` is by levels that take the calls back to the top as arguments
--   KnowledgeBase     src/core/knowledge_base.hpp and .cpp
--   Reporter          src/scan/reporter.hpp and .cpp; tick is the count, the percentage and the exchange
--   Host              src/include/host.h
--   Os                src/protocols/tcp/os_fingerprint.hpp
--   Cidr              src/scan/cidr.cpp: expand_cidr, over the functions of the network library
--   ThreadPool        src/processor/thread_pool.hpp and .cpp; a history is a pool with the tasks that
--                     were enqueued and started so far, and grows by the steps of any thread
--   Reads             reads of received bytes, which may be out of bounds
--   Ssh               src/protocols/ssh/terrapin.cpp; a read outside the received bytes is a result of
--                     its own. Check is check_terrapin; the server is a list of answers
--   Dns               src/protocols/dns/resolver.cpp; the answer that is received is an argument
--   Tls               src/protocols/tls/checks.cpp over the reports of handshakes; Scan is
--                     run_tls_checks, Facts what it writes to the knowledge base
--   Runtime           src/ztl/runtime.hpp: values, objects as references, environments. State is the
--                     interpreter's state with the chain of environments, and how exceptions end a run
--   Interpreter       src/ztl/interpreter.cpp, by recursion on the program: Strings has the methods of
--                     strings, Operators what is done with values, Meaning the rules for binary operators;
--                     the native functions are an argument
--   Runner            src/ztl/runner.cpp: Natives, Actions and Lookups are the functions that plugins
--                     call, Plugins is run_plugin, Passes run_for_port, AllPorts run_all, Http the
--                     parsing of responses; Globals and Sealed are about the names of the globals
--   Processor         src/processor/processor.cpp over the regular expressions, which are an argument
--   TcpRange          src/scan/tcp_range.cpp: how the findings of a port are put together; Scan is the
--                     whole task of a port, which calls Processor, Cve.Native, Runner.Passes and Cve.Report
--   WebUi             src/webui/webui.cpp: URLs, and the strings of JSON that are read and written
--   Witness           the theorems at concrete inputs
--
-- Errors are values: an exception of the lexer or parser is `err` of the type Outcome, and a
-- comparison of package versions that does not end is `none`.
--
-- Fuel. A loop that is not structural has fuel: as much as bytes or tokens are left, plus one, and
-- for the recursion of the parser the tokens of the whole text, plus one. That is enough: every
-- round of the lexer takes a byte, and every call of the parser that goes round takes a token before.
-- For dpkg_compare_str the fuel is the length of both texts, plus one; without '\0' in the texts that
-- is enough, and on two texts that begin with '\0' no fuel is.
--
-- Numbers are natural. `int` values of a version are at most 2^31 - 1, as std::stoi fails above that,
-- and line and column numbers are not bounded. Bytes are numbers; std::stod and the order of doubles
-- are parameters, of which no law is assumed. Files are their texts; the clock is a parameter.
--
-- The interpreter needs no fuel: it recurs on the program, and a native function that runs the block of
-- its call gets what the block does as a function. A native function works on the globals, the objects
-- and the world, never on the environments of blocks, as in runner.cpp.
--
-- Not modelled: sockets and transports, the functions of plugins that use them, reading plugins from a
-- directory, the SQLite database, the handlers, sessions and tokens of the web interface, the HTTP
-- library that is copied into it, the command line, the loop over the ports of a host, and logging.
pub mod Base
pub mod Finding
pub mod Version
pub mod Dpkg
pub mod Backport
pub mod Cve
pub mod Lexer
pub mod Parser
pub mod KnowledgeBase
pub mod ThreadPool
pub mod Cidr
pub mod Os
pub mod Reporter
pub mod Host
pub mod Ssh
pub mod Reads
pub mod Runtime
pub mod Interpreter
pub mod Dns
pub mod Tls
pub mod Runner
pub mod Processor
pub mod TcpRange
pub mod WebUi
pub mod Witness
