-- ===== src/Lib.antt =====
-- A model of itchbook: the limit order book that is rebuilt from a feed of ITCH messages, the
-- datagram layer in front of it, and the ring between the two.
--
-- The parts, and the files that model them:
--   * include/itchbook/book/order.hpp, level.hpp: Book/Order.antt and Book/Level.antt. The node
--     `Order`, and `Level` with `push_back`, `unlink`, `resize` and `shares_ahead_of`. Memory is a
--     function from addresses to nodes, and every operation returns the new memory.
--   * include/itchbook/book/pool.hpp: Book/Pool.antt, with `allocate` and `deallocate`. The address
--     of a new chunk comes from the system's allocator and is an argument.
--   * include/itchbook/book/book.hpp, class RefMap: Book/RefMap.antt, with `find_index`, `insert`,
--     `erase` and `erase_at`. The mask is applied with the native bitwise and.
--   * the same file, class Side: Book/Side.antt, with `push`, `pop`, `best`, `index_of`,
--     `set_band`, `level_filled` and `level_emptied`; Book/Side/Walk.antt is `for_each_order_mut`.
--   * the same file, class Book: Book/State.antt (the fields), Book/Tape.antt (`record_trade`,
--     `trade`, `cross`), Book/Band.antt (`open_band_when_two_sided`, `maybe_recentre`,
--     `move_band_to`) and Book/Mutate.antt (`add`, `execute`, `cancel`, `remove`, `replace` and what
--     they share), Book/Query.antt (`top`, `locked`, `crossed`, `for_each_order`). A book works on the memory, the pool and the reference map that it was given:
--     `State` holds the four together.
--   * include/itchbook/mold: Mold/Bytes.antt and Mold/Packet.antt (packet.hpp), Mold/Publisher.antt
--     (publisher.hpp) and Mold/Sequencer.antt (sequencer.hpp). The publisher's datagrams are the
--     sequencer's input; the handler's calls are a log.
--   * include/itchbook/pipe/spsc_ring.hpp: Pipe/SpscRing.antt. Each operation is one atomic step.
--   * include/itchbook/recover/gap_policy.hpp: Recover/GapPolicy.antt, what the book is worth after
--     the sequencer reports a gap; include/itchbook/recover/halt.hpp: Recover/Halt.antt, the trading
--     state of a symbol.
--   * include/itchbook/soupbin: Soup/Packets.antt (messages.hpp, encode.hpp), and of session.hpp
--     Soup/Frames.antt (`FrameBuffer`), Soup/Session.antt (`State`, `SilenceTracker`),
--     Soup/Client.antt and Soup/Server.antt (the two sessions). What goes to a sink is appended to a
--     list, and the part of a session that a frame can change is a record of its own.
--   * include/itchbook/engine: Engine/OrderTypes.antt (order_types.hpp), and of matcher.hpp
--     Engine/Matcher.antt (the state, `validate`, `transition`), Engine/Matcher/Orders.antt (the
--     matching loop and what it does to one order), Engine/Matcher/Run.antt (`run`, `fire_stops`),
--     Engine/Matcher/Submit.antt (the public operations) and Engine/Matcher/Query.antt. The book is
--     behind the interface `BookOps`, which Engine/OnBook.antt fills with the book above. The
--     laws `BookLaws` and `BookCounts` are what the accounts of the engine rely on; they are not
--     established for that book, which also takes orders of 0 shares, so the results below use none
--     of them. A reference to an order is its id. A failed assertion on a state sets a flag, and the
--     run goes on as without assertions.
--   * include/itchbook/sim: Sim/Money.antt (money.hpp, and the fills of event.hpp), Sim/Fees.antt
--     (fees.hpp), Sim/Mid.antt (mid.hpp, on the book above) and Sim/Ledger.antt (ledger.hpp).
--   * include/itchbook/risk/kill_switch.hpp: Risk/RateWindow.antt and Risk/KillSwitch.antt, whose
--     positions and money are those of the simulator.
-- The modules below these prove the properties; Tests.antt has runs and instances of them.
--
-- Numbers: shares, counts and totals of a level and of the tape wrap at 2^32 and 2^64 as in the
-- code. Prices are taken to be at least 0, where the code's -1 stands for a missing price it is
-- `none` here, and a cursor outside the band is `none`. Event counters and the sequence numbers of
-- 64 bits are plain numbers. The money of the simulator, its positions and signed prices are
-- integers without a bound: that they stay in 64 bits is left to the volume of a day. The ledger's
-- mark is wrapped where the code narrows it to 32 bits. The side of a book takes the price of a
-- place before the narrowing to 32 bits, which leaves the prices that orders can have as they are;
-- `int32_price_at` is what the code returns.
--
-- Fuel: a walk along a level takes its number of orders, a probe of the map its number of slots, and
-- the backward shift of `erase_at` the same; `insert` and `grow` call each other to depth two, and
-- the table that `grow` makes has room for all that it inserts. `flush` of the sequencer takes
-- one round for each packet of the buffer, and `drain` of a frame buffer one for each byte. The
-- matching loop takes twice the shares left and the number of orders of the book, and `fire_stops`
-- the number of parked stops. The growth of a table takes 64 doublings.
--
-- Not modelled: files, sockets, threads and the memory order of the ring's atomics, the clock, the
-- printed reports, and the tools, scripts, benchmarks and tests. The message
-- codecs and the rest of the simulator are not modelled either.
mod Base
pub mod Book
pub mod Pipe
pub mod Mold
pub mod Recover
pub mod Risk
pub mod Soup
pub mod Engine
pub mod Sim
mod Tests
