-- ===== src/Lib.antt =====
-- UnderFlow: a multi-player trading game. Clients connect to one server over TCP, buy documents on a
-- black market, sell sets of them to NPC offers by their tags, and pay a debt that rises with each
-- player who escapes. A round ends with a countdown and a reset of everything but the burned accounts.
--
-- The server runs one thread for each client and one for the events of the game. The state they share
-- lies behind mutexes, each of one file:
--   Market, Market/*    server/market.c: the board of documents and the mask of frozen tags
--   Npc, Npc/*          server/market.c: the board of offers
--   Userdb, Userdb/*    userdb/userdb.c: the accounts in users.dat
--   Sandbox, Sandbox/*  server/sandbox.c: the document files in the master and the users' directories
--   Protocol            common/protocol.h: error codes, requests and packets
--   Server              server/server_main.c: the state of the server and its ways of sending
--   Server/Buy, Sell, Payoff, Round, Seed, Raid, Desk   the handlers and threads of server/server_main.c
--   Events, Events/*    server/events.c: random tags and names, spawning, aging, the leak, the tick
--   Sessions, Sessions/*  server/server_main.c: the table of clients, client_handler and its dispatch
--   Wire, Wire/*        common/protocol.c: packets as bytes, on a host of either byte order, and in
--                       Wire/Layout the structs of common/protocol.h, against which they are compared
--   Watchdog, Watchdog/*  tools/watchdog.c: the restart loop between system calls and signals
--   Client, Client/*    client/ui_client.c: the tables and the mode that packets change, the command line
--   Client/Line, Line/*     the buffer of the line that the user types, under every key
--   Client/Loop, Loop/*     a round of the client's loop: packets, keys, countdowns, Ctrl-C, the end
--   Client/Screen, Screen/* what is drawn and where: labels, folded texts, chats, panes and rows
--   Client/News             the headline that the client keeps
--   Client/Audio, Audio/*   client/audio.c: the playlist, and the thread of the songs against its shutdown
--   System, System/*    server/server_main.c and events.c together: the boot, and any acts of their threads
--   Server/World, Tests modules: a small state, and each result at work on it or on one like it
--   Base                numbers, bits, lists and texts for all of them
-- (The folders server, common, client and tools are below src.) A definition has the name of the
-- function it models, and each file says which code it is about. A record of a mutex's state stands
-- for the globals behind it, and each function that holds the mutex is one step. The handlers of buying,
-- selling, the passcode, the login and the NPC sequence take what other threads do between their locks as a
-- function on the state. handle_payoff, trigger_round_reset, event_tick, fire_public_leak and sync_boards
-- are whole functions on the state, as they run when no other thread comes in between; what is said of
-- them says what they do then.
--
-- Conventions. A 32-bit mask is a natural number below 2 ^ 32, a 32-bit signed integer is an integer
-- that `add32` and `sub32` wrap, a C string is the list of its bytes before the terminator, and a
-- buffer of n bytes keeps the first n - 1. `time(NULL)`, `rand()`, and the results of `open`, `write`,
-- `rename`, `unlink`, `fork` and `pthread_create` are arguments or flags of the state. The loop over the
-- bits of a word is on fuel 32, one for each bit; the selection sort runs as many rounds as there are
-- balances; the folding of a text has a round for each of its bytes and one more, since each round takes
-- a byte at least. The log of packets lists what was given to `send`, whose failure the source ignores.
--
-- The handlers take a packet as a request with its fields, and send packets named by constructors; Wire is
-- about the bytes of any packet. The table of clients is run by a step relation in which the check and the
-- claim of a login are one step; Sessions/Race is about what comes in between.
--
-- The client's loop takes one event at a time: a round with a packet, a key or a time-out, or a SIGINT, which
-- comes at the head of a round or behind it. A row of the screen is named by what is printed into it.
--
-- System puts the parts together: an act is what a thread does with one packet, one round of the event
-- thread, one timer; what comes in the middle of it is a sequence of acts of its own. The critical sections
-- that touch the boards and the goal are acts too, beside which anything may happen to the rest, so that
-- the functions above can also be cut at each of their locks. The counters of the
-- event thread are free in each act, so nothing rests on how often it has run.
--
-- Not modelled: the calls of ncurses and the frames of its glitch, the socket calls of
-- `main`, and the texts of messages, which are named by constructors and numbers.
pub mod Base
pub mod Market
pub mod Npc
pub mod Userdb
pub mod Sandbox
pub mod Protocol
pub mod Server
pub mod Events
pub mod Sessions
pub mod Wire
pub mod Watchdog
pub mod Client
pub mod System
