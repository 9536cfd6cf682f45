-- ===== src/Lib.antt =====
-- hftalgorithms: a model of the trading bot's components and what is proved of them.
--
-- The bot keeps an order book per symbol from a multicast feed, watches the ten dorms and the ETF
-- UNDY for an arbitrage, and sends orders to the exchange. A risk manager stands between a strategy
-- and the exchange in the risk tests; the bot's own build does not link it.
--
-- Parts and files:
--   Base        shared tests on native numbers, lists (Base/Lists, Base/Prefixes), the unordered
--               map (Base/Dict), machine integers (Base/Int), doubles (Base/Double), texts
--               (Base/Text), with the library functions `find`, `to_string` and `stoi`, the
--               reading of numbers from a stream (Base/Text/Stream), and packed
--               structs (Base/Bytes)
--   Messages    messages.h: sides, message types and the message structs; Messages/Wire their
--               bytes
--   OrderBook   orderbook.h, orderbook.cpp: `handle_new_order` and the other handlers on the
--               record `OrderBook`; Levels has `std::map`, Depth, Invariant and NonEmpty the
--               lemmas, Handlers, Best and EmptyLevels the theorems
--   Trackers    Position, Exposure and Pnl: position_tracker, exposure_tracker and pnl_tracker,
--               .h and .cpp; Exposure/Accounting and Exposure/Pending their laws
--   Risk        risk_manager.h, risk_manager.cpp, iorder_sender.h: Types has the state, Checks
--               the methods that only look, Entry those that change the state; Events has the
--               calls of a manager as data and their run; Stable, Limits, Containment, Bounded,
--               Histories and Fixed carry the theorems of Rates, Books, Shutdown, Clearing,
--               Reach and Reductions
--   Symbols     symbol_manager.h, symbol_manager.cpp: the slots with their books and caches; File has
--               positions.txt as a text, Saved its round trip, Nav the snapshot, Cache the events and
--               their run
--   OrderEntry  oe_messages.h, oe_client.h, oe_client.cpp: Protocol has the messages, Session
--               the login, Waiting the two loops that wait for responses, Cancelling the
--               cancellation of all live orders. Wire has the packed structs and Wire/Stream
--               `read_response` and its callers on the bytes of the connection; Framing,
--               Delivered, Fills and Welcome relate them to the list of the responses, Orderly
--               and Ordered are about the requests
--   EtfClient   etf_client.h, etf_client.cpp: the client of the ETF service. Url, Base64,
--               Response and Holdings are about the address, the encoder, the answers and
--               `get_positions`, Holdings/Listed about its answer; Transport is `send_http_request`
--   Listener    listener.h, listener.cpp: `run_listener` round by round; Listed and Sound have
--               its invariant, Same, Arrivals, Explained and Order the order of what it applies;
--               Datagram is the processing of a datagram on its bytes, with its relation to the
--               messages in Packed, Market and Processed, and Stuck
--   EtfArb      etf_arb.h, etf_arb.cpp: the state `Bot` and the operations that the others
--               share; Trades has the arbitrages, Loops `run`, Market `run_with_mm`; Safe,
--               Basic, Runs and Making carry the invariant through them, Sizes has the
--               quantities, Waits the loops that wait, Declined an arbitrage that is not tried;
--               Numbers, Sending, Numbered and Issued carry the ids of the orders through `run`
--   Program     main.cpp: the start with its early returns, the strategy's thread and the
--               handler of SIGINT; Starting has what the start leads to
--   Tests modules hold concrete runs.
--
-- How the code is read:
--   An int32_t is a ℤ in its range and a uint32_t an ℕ; sums wrap where they are taken in 32 bits.
--   Where C++ leaves a signed overflow or the absolute value of the least int32_t undefined, the
--   model wraps. Order ids, uint64_t that count up from 1000, are ℕ.
--   `std::map` is the sorted list of its entries. `std::unordered_map` is an association list; the
--   order in which C++ visits it is not fixed, in the model it is that of the list.
--   A double is a parameter with an instance `Double D` of its operations; theorems that compute
--   with doubles use `exact`, the integers, as IEEE 754 does while results are whole and small.
--   Methods return the new state. Time is an argument in nanoseconds. The sender of orders is an
--   interface `IOrderSender` with a state of its own and is taken not to call back into the manager
--   during a call. Logging and printing are left out. An access to a slot that does not exist is
--   undefined in C++ and `none` in the model. Atomics are fields, so calls run one after another.
--   Loops are structural recursion over the list that the code visits, but for seven. Those of
--   `get_positions` and `load_positions` run on fuel, the length of the text: a round reads at
--   least one byte. The encoder's inner loop runs on fuel 2: at most 4 bits are left before a byte.
--   The loops of the strategy that wait (`await_flat`, `await_fills`, `sell_undy`) and its two main
--   loops have no bound in the code: they run on fuel and a number of rounds, any number, and are
--   `waiting` when the fuel is used up. The loop that waits for a response on the connection's
--   bytes and the loop over a snapshot's bytes run on fuel: a round for each message and one more
--   are enough where the messages are whole.
--   The order entry client's socket is the list of the responses that it will deliver, each with
--   the clock at which the client turns to it; on the level of bytes it is the list of the pieces
--   in which these arrive, which `recv` takes from. A buffer is a list of bytes, and a read or a
--   write outside of it is a fault. A packed struct is its fields one behind the other, least byte
--   first. The client's callbacks are recorded in a list, and the strategy makes them when the call
--   returns.
--   The strategy is a state monad over `Bot`, which has what it shares with the other parts. The
--   feed, the clock in milliseconds and the service are a parameter `World`: the feed arrives at each
--   sleep and between rounds. The transport of the service's client is a function from the request to
--   the response; Transport has the one of the code, over results of the system's calls. What
--   `epoll_wait` and the reads give the listener is a list; a datagram is what its bytes read as.
--
-- Not modelled: the system's calls behind sockets, files, the clock and `epoll`, whose results are
-- parameters; threads and interleavings within a call; printing, the logs, the crash handlers and the
-- thread that only prints the PnL; the code that is commented out in main.cpp and oe_client.cpp; the
-- tests, build files, logs and binaries.
pub mod Base
pub mod Messages
pub mod OrderBook
pub mod Trackers
pub mod Risk
pub mod Symbols
pub mod OrderEntry
pub mod EtfClient
pub mod Listener
pub mod EtfArb
pub mod Program
