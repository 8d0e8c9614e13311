-- ===== src/Lib.antt =====
-- A model of the SOCKS5 proxy of this repository (socks5d), and what is proved of it.
--
-- The server reads bytes of a socket into an array buffer and feeds them to a parser; a finite
-- state machine, driven by the selector, runs one handler for each state of a connection: greeting,
-- user and password, request, connection to the remote host, and the relay of bytes between the two
-- sockets. On the way from the client, the relay looks for POP3 passwords. A second protocol, Lulu,
-- manages the server with commands in text: the same buffers and state machine, one parser for each
-- command, tried in turn, and replies that read and set what the SOCKS5 part keeps.
--
-- Files, and the code that each is about:
--   Base                     Boolean tests, lists over the native numbers, parts of arrays
--   Stream                   the loop of every `...Consume` function: bytes are fed until the parser
--                            has finished; cutting the input into several reads
--   Parsers/Hello            socks5d/lib/parsers/socks5/hello_parser.c
--   Parsers/Auth             socks5d/lib/parsers/socks5/auth_parser.c
--   Parsers/Request          socks5d/lib/parsers/socks5/request_parser.c
--   Parsers/Pop3             socks5d/lib/parsers/pop3/pop3_auth_parser.c
--   Buffer                   socks5d/lib/utils/buffer.c; Buffer/Queue is what a client may rely on
--   Fsm                      socks5d/lib/fsm/fsm.c
--   Users                    socks5d/lib/socks5/socks5_users.c
--   Socks5                   socks5d/include/lib/socks5/socks5_connection.h and what handlers share
--   Socks5/Messages          socks5d/lib/socks5/socks5_messages.c
--   Socks5/Hello             socks5d/lib/socks5/fsm_handlers/socks5_hello.c
--   Socks5/Auth              socks5d/lib/socks5/fsm_handlers/socks5_auth.c
--   Socks5/Request           socks5d/lib/socks5/fsm_handlers/socks5_request.c, the reply
--   Socks5/Connect           socks5_establish_connection.c and socks5_dns.c there, with the read of the
--                            request in socks5_request.c
--   Socks5/Relay             socks5d/lib/socks5/fsm_handlers/socks5_connected.c, socks5_client.c and
--                            socks5_remote.c, with what they call of tcp_connection.c,
--                            socks5_buffer.c, socks5_metrics.c and socks5_password_dissector.c
--   Socks5/Timeout           socks5d/lib/socks5/socks5_timeout.c
--   Socks5/Metrics           socks5d/lib/socks5/socks5_metrics.c; the relay and the replies keep the
--                            counters that they use in their own state
--   Pool                     socks5d/lib/utils/object_pool.c
--   Stream/Faulty            the `...Consume` loop of the management protocol's parsers, which may
--                            read or write outside an array
--   Lulu/Words, Lulu/Text    the `traverseWord...` functions of socks5d/lib/parsers/lulu, and the
--                            arrays that its parsers write names to
--   Lulu/Commands            client_metrics_parser.c, client_get_buffersize_parser.c,
--                            client_get_timeout_parser.c and client_list_users_parser.c there
--   Lulu/Values              client_set_buffersize_parser.c and client_timeout_parser.c
--   Lulu/Goodbye, Lulu/Hello, Lulu/SetUser, Lulu/DelUser
--                            client_goodbye_parser.c, client_hello_parser.c,
--                            client_set_user_parser.c and client_del_user_parser.c
--   Lulu/Messages            socks5d/lib/lulu/lulu_messages.c
--   Lulu/Connection          socks5d/include/lib/lulu/lulu_connection.h and what handlers share
--   Lulu/Login               socks5d/lib/lulu/fsm_handlers/lulu_hello.c, with LogInLuluUser
--   Lulu/Transaction         socks5d/lib/lulu/fsm_handlers/lulu_transaction.c
--   Lulu/Accepted            what the management protocol's parsers make of whole commands
--
-- Correspondence. A structure is a record with the source's fields and an enumeration a data type
-- with its constants, in this language's spelling. A function of the source that changes an object
-- is a function from the object to the changed object; `HelloParserFeed` is `Parsers.Hello.feed`,
-- and its `switch` is `feed_in`. A pointer into an array is an offset. What the program leaves
-- undefined or stops at (a failed assertion, an abort, a read outside a block of memory, a null
-- pointer) is `none`. Sockets, `shutdown` and the selector are outside the model: what they answer
-- is an argument of the handlers. A byte is a natural number, with the bound 256 as a hypothesis
-- where it matters; counters of one byte wrap as written in the source, and `int` and `size_t`
-- counters are bounded by the sizes of the arrays that they index, but for those of the growing
-- arrays of the POP3 parser, which are followed below 2 ^ 31 bytes only.
--
-- Two loops are given fuel, those over the parsers of a management connection: 4 turns for the login
-- and 11 for the commands, where each turn that goes on has moved to the next of 2 and 9 parsers.
-- Every other loop runs over a list of bytes, of users, of objects or of table entries. How the C
-- library prints a number is a parameter of the replies that do.
--
-- Not modelled: the life cycle of a connection of either protocol, what disposing of one does when
-- it times out, the start of the servers, and the management client; the selector, the sockets and
-- the logger, which are system calls.
pub mod Base
pub mod Stream
pub mod Parsers
pub mod Buffer
pub mod Fsm
pub mod Users
pub mod Socks5
pub mod Pool
pub mod Lulu
