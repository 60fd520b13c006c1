-- ===== src/Lib.antt =====
-- A model of the TACACS+ daemon tac_plus-ng of the event-driven servers
-- (tacacs/binaries/tac_plus-ng), in C: the way of a packet from the socket to its handler, the
-- authentication of users, the authorization of commands and services, the scripts and rules that decide, and the way of a
-- reply back to the socket.
--
-- A packet comes in through `tac_read` (packet.c), which collects its bytes (Receive.antt), finds
-- or opens its session and keeps to the sequence and the limit of rounds (Input.antt), undoes the
-- obfuscation of `md5_xor` (Obfuscate.antt) with the first key under which the length checks
-- (Validate.antt) pass, and hands it to `authen`, `author` or `accounting`; Input/Connection.antt
-- puts these steps together. `authen` (authen.c) picks the handler of a login and goes
-- on with it (Authen/Start.antt); the handlers are in Authen/Logins.antt, Authen/Ascii.antt and
-- Authen/Enable.antt, their common steps in Authen/Steps.antt and the check of a password in
-- Authen/Password.antt. `author` (author.c) reads the request and its command
-- (Author/Request.antt). `do_author` (Author/Decide.antt) asks the scripts of the host, the rules
-- of the realm and the profile (Rules.antt), which run scripts (Script.antt), and negotiates the
-- attribute-value pairs (Author/AvPairs.antt). `accounting` (acct.c, Accounting.antt) reads a
-- record and answers it. The replies (Reply.antt) leave through `write_packet` or wait in the
-- queue of `delay_packet` (Output.antt). Mavis.antt models the attributes that the daemon
-- exchanges with its backends as text (tacacs/binaries/mavis/libmavis.c). Radix.antt is the tree of
-- networks in which hosts and nets are found by address (tacacs/binaries/misc/radix.c), on the
-- prefixes of Net.antt (net.c). Base64.antt is misc/base64.c. Protocol.antt has the
-- header and the constants of protocol_tacacs.h, Prelude.antt the helpers that all share.
--
-- Definitions keep the names of the C functions and fields. A byte is a natural number below 256;
-- the wrap-around of a sequence number or a length byte is written out with `u8`. A string is the
-- list of its bytes, which has no zero byte, and a null pointer is the empty list or `none`. A
-- linked list or an array of pointers is a list, an entry that was set to null is `none`. A
-- handler takes the state and returns the state after it with the packet that it sends. Where a C
-- function is a loop or one half of a long function, the definition for that part has a name of
-- its own.
--
-- Fuel: `xor_loop` counts its rounds and is given the data length, at least one round for every
-- block. `eval_tac_acl` counts the depth of calls, and `none` is a run out of fuel;
-- Script/Calls.antt shows how much is enough.
--
-- Authentication keeps a Session of its own in Authen.antt, with the fields that authen.c reads and
-- writes. A handler ends with one action: a reply, an error, or a query to the MAVIS backend, after
-- which it is called again with the session as the backend's answer left it (`run_event`). The
-- theorems hold for any session, so for whatever mavis.c puts there. An address is the list of its 128 bits, and the
-- table of a tree of networks is a function from prefixes to payloads.
--
-- The final reply of a session frees it (`cleanup_session`): Input/Connection.antt takes the session
-- out after an error reply, and a call of `do_author` that goes on after such a reply is a Course of its
-- own in Author/Decide.antt, of which nothing more is said. A handler that is called has the session in
-- its hands; what it makes of it is in the module of the handler. Whether the end of the last session
-- also closes the connection is not modelled.
--
-- Parameters: the digests and ciphers of stored passwords, the rules, scripts and ACLs and the table
-- of users are fields of Env in Authen.antt; the rules and scripts have models in Rules.antt and
-- Script.antt, on the attributes that they set. `md5v` (mymd5.c, a copy of a public implementation) is any function, of which some
-- theorems need digests of 16 bytes; `eval_log_format`, the tests of a condition on one value and
-- `attr_add` are fields of Engine. What `recv` returns is the list of pieces of a Socket.
--
-- Not modelled: RADIUS, TLS, the detection of the protocol, logging, the configuration parser, the
-- modules of MAVIS, the lookup of users, MS-CHAP, EAP and RADIUS logins, the scheduler, and the other programs of
-- the collection (spawnd, tcprelay, ftpd, mavisd, tactester, the older tac_plus), since they are
-- input and output, other protocols, or parts that start from the modelled ones. The agent, the
-- frontend and the installation files are other languages.
pub mod Accounting
pub mod Authen
pub mod Author
pub mod Base64
pub mod Input
pub mod Mavis
pub mod Net
pub mod Obfuscate
pub mod Output
pub mod Prelude
pub mod Protocol
pub mod Radix
pub mod Receive
pub mod Reply
pub mod Rules
pub mod Script
pub mod Tests
pub mod Validate
