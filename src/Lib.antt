-- ===== src/Lib.antt =====
-- Verification of the ibdex API server (Go), which follows the events of a Uniswap-style exchange
-- on an Ethereum-compatible chain, keeps statistics of its pools and serves them.
--
-- The program's parts and where they are modelled:
--
-- service/evm.go watches the chain. A watcher polls (scanPoolsV2, scanPoolsV3, scanNft, scanFactory)
-- or subscribes (listenPoolsV2, ...), and passes each log to a handler (dealPoolV2Log,
-- dealPoolV3Log, dealNFTLog, dealFactoryLog), which sends values and error lines on channels.
--   Chain.Scan         the polling loops: scan_round and scan_v2_round are a round, scan the loop over
--                      the rounds that have run. Heights are uint64 and wrap.
--   Chain.Watch        the watchers with their handlers and the StartListen functions
--   Chain.Logs         the handlers, on logs as lists of bytes
--   Chain.Bytes        absBytes and flagBytes; Chain.Signed says what they compute
--   Chain.PoolAddress  getPoolContract
--   Chain.ErrorText    cutErrorString
--   Chain.Types        the records, the event topics, and go-ethereum's functions as parameters
--
-- model/public.go keeps the coins and pools in maps and lists that share pointers.
--   Registry           the package's variables as a record, pointers as positions in a heap, and one
--                      function for each function of the file. What the database answers is an
--                      argument. Each call is taken to be atomic; the source locks the coins only.
--
-- service/types.go and service/task.go keep the statistics of the pools from what the watchers send.
--   Stats.Window       Volumes: append and get24HVolume, with the clock as an argument
--   Stats.Ticks        Reserves, the three maps and the loop of dealTickV3: deal_tick is one passage of
--                      its body, deal_ticks the loop over the ticks that have come
--   Stats.Start        start, initPoolStat and initPoolStatReal
--   Stats.Discovery    dealNft, dealFactory and addCoin, which enter new pools and start their watchers
--
-- model/pool.go and model/nft.go read from the database and write to it.
--   Storage            each query with the decoding of its rows; what MySQL answers is an argument, and
--                      so is the time that a text of the database stands for
--
-- service/api.go gives the statistics to the handlers and stores them each day.
--   Stats.Overview     OverviewPools, OverviewPoolsByContract and StatPoolVolumes with its cache
--   Stats.Daily        countVolumes: count_tick is one passage of its loop
--
-- service/price.go finds the prices of the tokens from three that are known.
--   Prices             setTokensPriceAsUsd: walk is the outer loop, pass_all the inner one. The
--                      arithmetic of float64 is a parameter, and so is OverviewPoolsByContract.
--                      Prices.Links says which prices follow from which, over which pools, and
--                      Prices.Served puts OverviewPoolsByContract of Stats.Overview in. Prices.Rounds is
--                      RealEthPrice, with the request of tools/unit.go for the price of ETH
--
-- api/middleware/verify.go decides who may call the handlers of the administrators.
--   Access             VerifySignature, verifyEthAddress and AddAdmins
--
-- service/protocol.go stores the fees that the pools owe.
--   Fees               the loop of RealProtocolFees
--
-- api/public.go, api/admin.go and api/gecko.go handle the HTTP requests.
--   Handlers           the handlers, from the parameters and the database's answers to a reply;
--                      Handlers.Gecko and Handlers.Tickers are gecko.go
--
-- api/middleware/limiter.go limits the requests of an address.
--   Limits             IPRateLimiter; the limiter of golang.org/x/time/rate is a parameter. Limits.Race
--                      takes GetLimiter apart into its critical sections
--
-- daemon/daemon.go starts a process in the background (as main.go does), and again when it has ended.
--   Daemon             Background and Run: run_round is one passage of its loop
--
-- api/router.go takes a request to its handler.
--   Router             InitRouter as a list of routes. Router.Handling serves a request: the middleware
--                      of its route, and then its handler, which may change what is shared (Site)
--
-- The service is all of this together.
--   System             the watchers, the tasks that find pools, countVolumes and the HTTP handlers over
--                      the state that they share: step is a tick, a request, the start of a watcher's
--                      listening (with its error), or one call of the task that finds pools (AddPool,
--                      addCoin, initPoolStatReal with StartPool), as Stats.Discovery.Calls has them;
--                      launch is what start(3) sets up. Stats.Discovery.Pending has what holds between
--                      the calls, System.Tasks and System.Sound what every step keeps,
--                      System.Isolated what a run leaves of one pool, and System.Between what a new
--                      day finds between two calls
--   Startup            config/config.go, model/mysql.go, gl/global.go and main.go
--
-- Common has the shared helpers: Boolean tests and lists over the native numbers, integers, Go's
-- strings as lists of character codes, maps as association lists, outcomes (a value or a run-time
-- panic) and results (a value or an error), and decimal numbers. Tests applies the theorems at
-- concrete inputs.
--
-- Channels are modelled by the list of what is sent on them, and goroutines by the sequence of the
-- calls that they make. Endless loops are modelled over the finite sequence of the rounds or values
-- that they have had, of any length, so that no fuel is needed there. nat_bytes and the decimal digits
-- have the fuel n + 1 for a number n, which has no more digits than that. The walk over the pools has
-- the fuel 3 + 2 n for n pools: each passage takes a token from the queue, and a token comes into it
-- once, as one of the three first or as one of the two of a pool.
--
-- Not modelled: the generated bindings in contracts/; the constants of gl/constant.go, StopHttpServer
-- and WaitForKill, which are input and output. Of Start, startNft (which dials the node and
-- panics when it cannot) and the rounds of RealEthPrice and RealProtocolFees are no steps of System.
-- Nothing comes in between within a step of System: where goroutines run at the same time in the
-- source, and it does not lock, the calls that are a step are taken to be atomic (the three writes of
-- initPoolStatReal, say, or a whole request). The requests of Limits come one after the other; the two
-- critical sections of GetLimiter are taken apart in Limits.Race. A watcher polls with the contracts
-- as they answer at the moment of each log, so that balances and positions change in a run.
-- go-ethereum's functions (keccak256, the spelling of addresses, LeftPadBytes, BytesToAddress,
-- HexToAddress) are parameters, and so is the choice of a route by gin.
pub mod Common
pub mod Chain
pub mod Registry
pub mod Stats
pub mod Access
pub mod Storage
pub mod Prices
pub mod Daemon
pub mod Handlers
pub mod Limits
pub mod Fees
pub mod Router
pub mod System
pub mod Startup
pub mod Tests
