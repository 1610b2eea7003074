-- ===== src/Lib.antt =====
-- The verification library of reckon: invoicing and time tracking for a small trade business.
--
-- What is here is the arithmetic and the rules that decide what is billed and paid, and the state kept
-- on a phone that is often offline. Money is exact decimals; a price, a pay rule and a retainer are
-- picked for an entry by client, place and day; what they come to is the worth of the entry. Materials
-- are drawn from lots on a shelf and passed on to a client with tax; a trip's drives become legs, each
-- to whoever caused it. On the phone, timers run, entries wait in a queue until the server takes them,
-- and a change to a line is merged with what the server has. The server reads a trip that is sent, asks
-- Google for its miles, splits the tax on an invoice between the state and the districts, and counts the
-- wrong passwords of an address.
--
-- Which file models which part:
--   Decimal, Decimal/Numeric     src/lib/decimal.ts: Decimal, Ratio, divRound; from, toString, sum
--   Stock                        src/lib/stock-draw.ts: drawFrom, unitCost, changeDraw
--   Pricing                      src/lib/server/valuation/pricing.ts: priceOn, jobRate, billedAmount
--   Pay                          src/lib/server/valuation/pay.ts: ruleOn, timePay, vehiclePay, coveredPay
--   Entries                      src/lib/server/valuation/entries.ts: agreementFor, coverage
--   Entries/Worths               src/lib/server/valuation/entries.ts: team, worth
--   Misc                         src/lib/server/valuation/misc.ts: hoursOf, legWorth, legVehiclePay,
--                                materialWorth
--   Queue, Queue/Flush           src/lib/queue.ts: the five stores; postOne and post
--   Trips, Trips/Legs, Trips/Places
--                                src/lib/trip-legs.ts: shares; legsOf, withRoute; estimate, driveKey
--   PassedOn                     src/lib/passed-on.ts: passedOn, fromStock, taxedAt
--   TaxRounding                  src/lib/tax-rounding.ts and src/lib/draft-totals.ts
--   LineMerge                    src/lib/line-merge.ts: same, merge
--   LineHistory                  src/lib/line-history.ts: eventsOf
--   Timers                       src/lib/timers.ts: start, drop, moveStart, toEntry
--   Tax                          src/lib/server/valuation/tax.ts: invoiceTax
--   TripInput, with Values, Steps, Stops and Drives
--                                src/lib/server/trip-input.ts: readTrip
--   Routes                       src/lib/server/routes.ts: routeMiles, roundTrip, legsOf
--   TripWrite                    src/lib/server/trip-write.ts: legsFor and the rows of writeStops, with
--                                mileServiceFor (trip-worth.ts), waypointsOf (trips.ts), baseOf and
--                                siteAt (site-drive.ts)
--   TripWorth                    src/lib/server/trip-worth.ts: tripWorth
--   SignIn                       src/lib/server/sign-in-limit.ts: waitFor, recordFailure, clearFailures
--   Common                       numbers, lists, texts, results, sorting and choosing the best
-- Names are the source's in snake case; the modules below each of these hold its lemmas, and Examples
-- its tests.
--
-- How the code is rendered. A string is the list of its code units, and `<` on strings their order. A
-- bigint is an integer over the native numbers, of any size, so nothing wraps. A call that may throw is
-- a Result that says which class of error; null and undefined are none. A loop is recursion on its list;
-- the digits of a number are printed on fuel above the number, which is enough since each step divides
-- it by ten. Array.sort is a stable insertion sort. A Map is the list of its keys in the order they were
-- first set. A store of the phone is its rows in the order of their keys, written whole in a
-- transaction; what the network answers, and what a person does while a post is out, is a parameter, so
-- a statement about a flush holds for every interleaving at the points where the code waits. A parsed
-- JSON body is a tree of values; what is refused of it is carried from step to step. The pieces of a
-- route are asked on fuel as large as its places, which is enough since each piece drops eleven.
--
-- Parameters: localeCompare and toLowerCase, which the host's locale data define; todayIn and
-- toISOString, which turn moments into text; the clock and the ids made for a timer; Date.parse, of a
-- day that a trip is sent with; JSON.parse, of what a history keeps; and for a route, Google's answers, JSON.stringify and how metres and
-- seconds print as miles and minutes.
--
-- Where the model is simpler than the code: posting a line reads drafts and lines at once, discarding a
-- draft and queueing a change are one step each, and a queued draft, line or change keeps only what the
-- flush reads of it; a field of a history is one of the eleven named, and not a name that every object
-- inherits; the cover of an entry is set by its id, where the code sets the entry itself.
--
-- Not modelled: SQL, HTTP, the screens, Intl's formatting, form schemas, the browser's storage calls
-- themselves, secondsOf and billingDate.
pub mod Common
pub mod Decimal
pub mod Stock
pub mod Pricing
pub mod Pay
pub mod Entries
pub mod Queue
pub mod Trips
pub mod PassedOn
pub mod TaxRounding
pub mod Timers
pub mod LineMerge
pub mod LineHistory
pub mod Misc
pub mod SignIn
pub mod Routes
pub mod Tax
pub mod TripInput
pub mod TripWrite
pub mod TripWorth
