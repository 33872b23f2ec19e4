-- ===== src/Lib.antt =====
-- A model of the auction manager: an auctioner that sells the bandwidth of network resources to
-- agents, with theorems about its core.
--
-- The program and the files that model it:
-- * Ids. foundation/src/IdSource.cpp (IdSource), MessageIdSource.cpp (MessageIdSource) and
--   TemplateIdSource.cpp (TemplateIdSource) draw the numbers of objects, messages and templates.
--   `new_id` and `free_id` are newId and freeId; numbers keep their 16 or 32 bits by `%`.
-- * Time and events. foundation/src/Timeval.cpp (Timeval), foundation/include/Event.h with
--   foundation/src/Event.cpp (Event), and the queue of foundation/src/EventScheduler.cpp with
--   auctioner/src/EventSchedulerAuctioner.cpp (EventScheduler). The main loop takes the next event
--   from the queue, runs it, and puts it back if it recurs; the managers add events and delete
--   those that name an object they remove. An event is a record, its subclass a payload, and the
--   queue a list of times and events.
--   user_agent/src/EventSchedulerAgent.cpp (EventSchedulerAgent) moves the removal of an auction and
--   deletes what refers to a resource request.
-- * Objects. foundation/src/AuctioningObjectManager.cpp (ObjectManager) is the registry that the
--   managers of auctions, bids and resources extend: a vector of objects by uid, an index by set
--   and name, a list of done objects, and an IdSource. Its state is the record Manager, and
--   `add_object`, `delete_named`, `delete_uid` and `delete_set` are its operations.
-- * Sessions. foundation/src/SessionManager.cpp and the pending messages of
--   foundation/src/Session.cpp (SessionManager): a store like the registry, with a second index by
--   the id of the signalling protocol. Slots has the vectors of both.
-- * Resources. foundation/src/Resource.cpp and verifyAuctions of
--   foundation/src/ResourceManager.cpp (Resource): whether auctions may use a resource together.
-- * The auction itself. proc_modules/bas.cpp (Bas): `execute` reads the bids, orders their elements
--   by price (`order_bids`), sells the bandwidth from the highest price down (`clear`), and turns
--   the result into allocations (Bas/Allocation).
-- * Auctions and bids. foundation/src/Auction.cpp and BiddingObject.cpp (Auction, BiddingObject)
--   read the running time of an auction and the intervals of a bid. foundation/src/AuctionManager.cpp
--   and BiddingObjectManager.cpp (AuctionManager, BiddingObjectManager) add them to their registry
--   and group them by time into events; `add_auctioning_objects` and `add_bids` are
--   addAuctioningObjects, `collect` its loop and `schedule` what it puts into the queue. An event
--   holds the uids of its objects, and the details of an auction stand beside the registry.
-- * Requests. user_agent/src/ResourceRequest.cpp and ResourceRequestManager.cpp (ResourceRequest) are
--   the agent's side: the intervals for which a user asks for resources, each with an event for its
--   start and one for its stop. user_agent/src/AgentProcessor.cpp (AgentProcessor) keeps a process
--   for each, with the auctions in which it bids.
-- * Running auctions. auctioner/src/AUMProcessor.cpp (AumProcessor) keeps a process with its bids for
--   each active auction, under the uid of the auction, and executes it. The handlers of
--   auctioner/src/Auctioner.cpp (Auctioner) connect the parts: an activation event starts
--   processes and their executions, an execution puts its event back until the auction stops, bids
--   are given to the processes of their auctions, and a removal event ends processes and auctions.
--   Auctioner/Serving has the handlers for the agents' bids and sessions: a session that asks for
--   auctions is counted among their references, for which AuctionManager/Referring has the lemmas.
-- * The agent. user_agent/src/Agent.cpp (Agent): the answer to a session holds auctions, which
--   createAuctions fits to the interval that was asked for (Agent/Creation), createProcessRequests
--   starts processes that bid in them (Agent/Requests), and the end of the interval removes the
--   processes and the auctions that no session refers to (Agent/Handlers, Agent/Ending). The state
--   is the record Agent, and each handler is a function on it.
-- * Bidding. proc_modules/basuser.cpp (BasUser) is the procedure that a process of the agent runs:
--   `execute_user` shares the budget and the valuation of a request among its auctions.
-- * Modules. foundation/src/ModuleLoader.cpp with Module.h and the constructor of ProcModule.cpp
--   (ModuleLoader): the libraries with the procedures, which the processors share by counting
--   references. The dynamic linker is an argument, and the loader keeps the calls that it makes.
-- * Fields. foundation/src/FieldValue.cpp and Field.cpp (Field): the values of the fields in bids and
--   auctions, as text with a type, which `parse_field_value` reads and `equal` compares.
-- * Configuration. foundation/src/ConfigManager.cpp (ConfigManager): the items of the file, which the
--   arguments of the command line change, and the searches in them.
-- * Text. foundation/src/ParserFcts.cpp (ParserFcts), over the conversions of the C library.
-- Prelude has lists, maps (Prelude/Dict), integers (Prelude/Int) and results that may be errors.
--
-- Bounds and fuel: the search of an id loops until it finds a number that is not reserved, so it
-- takes fuel; one unit is enough where nothing is reserved, and one more than the number of
-- reserved ids in general. A registry or a store of sessions draws at most 65536 ids before they
-- repeat, which the theorems ask for. Deleting processes starts its loop anew after each deletion,
-- so it takes fuel as well, of which `scan_fuel` is shown to be enough. Rescheduling a removal may
-- never end; with at most one event that removes the auction it ends, and two more units than there
-- are events are enough. The agent gives it that many, and is stuck where they are not enough. The
-- executions of an auction take as much fuel as it has seconds, or one more. All other loops are
-- recursion on their lists.
--
-- Simplifications: prices and quantities are exact numbers of a smallest unit that are not
-- negative, where the source has doubles and floats; alignment of events is exact likewise; 64-bit
-- times do not overflow; uids are not negative. Text to number conversions, random names, the
-- modules that a process loads and the current time are arguments. An object is held by value in
-- the one place that owns it.
--
-- Not modelled: the parsers of XML files and messages, the files of field definitions and of the
-- configuration, templates, the main loops and the messages that are sent, the signalling and
-- control connections, logging, and the bundled libraries in lib: these are input and output, glue
-- to other libraries, or further parts of the same kind. foundation/src/AllocationManager.cpp is not
-- built, and its header is not in the repository.
mod Prelude
pub mod Field
pub mod ConfigManager
pub mod IdSource
pub mod MessageIdSource
pub mod ModuleLoader
pub mod ParserFcts
pub mod TemplateIdSource
pub mod Timeval
pub mod Event
pub mod EventScheduler
pub mod EventSchedulerAgent
pub mod Bas
pub mod BasUser
pub mod Resource
pub mod ResourceRequest
pub mod Agent
pub mod AgentProcessor
pub mod Auction
pub mod AuctionManager
pub mod BiddingObject
pub mod BiddingObjectManager
pub mod Auctioner
pub mod AumProcessor
pub mod ObjectManager
pub mod SessionManager
pub mod Slots
