-- ===== src/Lib.antt =====
-- VSS, a server of variables: clients set, read, lock and observe named variables over a network
-- API. This library models the storage of the variables, the controller above it, the two network
-- APIs, the start of the server and the client library.
--
-- The parts, and the files that model them:
--
-- * sources/services/storage/ramcacheddb.go (RamCachedDB): the tree of nodes in memory. Storage.Tree
--   has the nodes and their children (a Go map, as a list with one entry for each name),
--   Storage.Keys the path that a key names, Storage.Scroll the walk of scrollTree, Storage.Db the
--   operations Set, Get, HasValue, GetChildNames and DeleteValue. Storage.Values says what each path
--   holds, Storage.Removal and Storage.Contract what the operations promise, and Storage.Interface
--   is sources/services/storage/istorage.go (IStorage): the operations with the laws that the
--   controller relies on, and RamCachedDB as one that has them. Storage.Dump is the text dump, its
--   load and the background dumper.
-- * sources/services/storage/ramcacheddbpkv.go (RamCachedDBPkv): Storage.Pkv, over what it calls of
--   sources/misc/prefixtree, which is an argument.
-- * sources/misc/dynamicvar.go (DynamicVar): DynamicVar; a value is its text, as bytes. Integers and
--   booleans are read from the text and written to it; InferType tells the kinds apart.
-- * sources/controller/controller_varhelper.go (VarHelper): Controller.VarHelper is the list of the
--   observers of a variable, Controller.VarFlags its value, its flags and its lock.
-- * sources/controller/controller_clienthelper.go (ClientHelper): Controller.ClientHelper is the
--   list of the clients, and the list of the variables that each observes.
-- * sources/controller/controller.go (TheController): Controller.SetVar is NewController's limits, the
--   checks of setVar, and setVar and SetVar themselves; Controller.Reading is GetVars, DelVar,
--   GetChildsOfVar and the locks of several variables; Controller.Observing is ObserveVar,
--   StopObservingVar, ClientConnected, deleteClient and the notifications of a change. All are
--   over the names that a query resolves to. Controller.Names is resolveVarNames, and
--   Controller.Queries the operations that an API calls, which resolve their query first. A goroutine
--   is run to its end where it starts, or is an operation of its own (the notifications of SetVar,
--   DelVar and ClientConnected).
-- * sources/controller/controller.go (IController): Server is TheController as the two APIs are given
--   it, over any storage, and Server.Across runs both APIs over it.
-- * sources/services/apis/vstp/vstp.go (VSTP): Vstp is the buffer of the incoming bytes and the lines
--   that are taken from it; Vstp.Messages is how a message is written and taken apart, Vstp.Clients
--   the maps of the connections and their ids, Vstp.Json the names in an object, and Vstp.Commands
--   what each command does with a controller, which is an argument, and what is answered;
--   Vstp.Commands.Lines processes the lines of incoming bytes one after the other, where the code
--   starts a goroutine for each.
-- * sources/misc/confs/confs.go (Confs): Confs has the configuration items and their values,
--   Confs.Sources the command line, the environment and the file as sources of values
--   (sources/misc/confs/sources).
-- * sources/services/apis/httpapi/httpapi.go (HTTPAPI): Http.Requests has the request, the answer and
--   the names in an answer, Http.Exports what a GET answers, and Http.Handlers handlePath and the
--   handlers, over the controller's interface; Http.Nested the tree that insertNested
--   makes, Http.Arrays normalizeArrays, and Http.Sockets the websocket clients;
--   Http.Handlers.Leaves is what setJson does to the leaves of an object.
-- * sources/misc/goVssClient/vsscli/vsscli.go (VssCli): Client has the packs that are sent and
--   received and what each call waits for, with SeparateKeyAndValue of sources/misc/misc.go;
--   Client.Observing has the observers of variables, Client.Session the start of a session, what runs
--   under a lock, and the names of childs.
-- * sources/misc/goVssClient/varbasedrsm/varbasedqueue_default_impl.go (Queue): Client.Queue is
--   PostMessage and consumeMessages over the variables of varbasedrsm_interface.go (VarBasedRSM),
--   which are an argument; Client.Queue.Own is which variables it touches.
-- * The start of the server (main.go) is Startup: the configuration as it starts, the choice of the
--   storage and the arguments that are refused. Startup.Entries has the items, Startup.Items their
--   validations; Startup.Help is how printHelpLine wraps the help.
-- * sources/misc/namedlock.go (NamedLockRun): NamedLock has the locks and the steps of their callers,
--   in any order.
-- * sources/misc/customstream.go (Stream): Stream has the listeners and their ids.
-- * sources/misc/logger/logger.go (Logger): Logger.Log makes the messages, Logger.Writers is what
--   writers/console.go and writers/file.go do with them, Logger.Command is writers/commandcall.go,
--   and Logger.Common has the texts of loggerutils/common.go.
-- * Text has the functions of Go's package strings that these use, Prelude the shared names.
--
-- How the model corresponds to the code. A method is a function of the same name, in the spelling of
-- this language, whose last argument is the state and which returns the state afterwards, with the
-- result in front of it if it has one. The controller's parts take any storage with the laws of
-- IStorage. What the code runs under a mutex or a named lock is one step. An int and an int64 are the
-- integers of Prelude.Int; they wrap around where the code adds and subtracts, and a text outside of
-- 64 bits is not read. A clock and an API are arguments of what calls them.
--
-- Fuel and bounds. The walk of scrollTree has one more round than the key has bytes: each round
-- takes at least one byte off, so that the fuel does not run out. The loops over a stored count run
-- as many rounds as the count says, by recursion on it.
-- The walk over the parents of a variable has as many rounds as the name has bytes; each parent is
-- shorter than its child. The loop over the buffer of VSTP has as many rounds as the buffer has
-- bytes; each takes an end of line off.
-- resolveVarNames has fuel of four kinds, of which the record Fuel is made: for the increments in a
-- query, for the rounds of a loop over the values of one (as many as there are values, and one
-- more), for its wildcards (one more than it has), and for the depth of the storage (two more than
-- it has nodes). Each run-out is a result of its own, so that no theorem takes it for an answer.
-- The loop of printHelpLine has one more round than the line has bytes, which is enough in a terminal
-- with room behind the second column: each round prints at least one more byte of the line.
--
-- Not modelled: how the client library connects again (misc/goVssClient), the sockets
-- (misc/evttcp), which are input and output around callbacks, the binding of a C++ library
-- (misc/prefixtree), the banner, the signals and the colours of the terminal, the packing of a
-- full log file and AnyToString, which reads any Go value. encoding/json, net/http, ParseFloat,
-- FormatFloat and package time are arguments. ReplaceAll of a placeholder with an empty name, and
-- letters outside of ASCII in ToUpper and ToLower, are not written out; TrimSpace is for the white
-- space of ASCII, without the other white space of Unicode. The order in which Go
-- walks a map is fixed here as the order of insertion, but for the ranges of normalizeArrays,
-- whose orders are arguments. In the operations of the storage and the controller the time-outs
-- of the named locks are not modelled: the lock is taken.
pub mod Prelude
pub mod Text
pub mod DynamicVar
pub mod Storage
pub mod Controller
pub mod Vstp
pub mod Confs
pub mod NamedLock
pub mod Stream
pub mod Logger
pub mod Server
pub mod Startup
pub mod Client
pub mod Http
mod Tests
