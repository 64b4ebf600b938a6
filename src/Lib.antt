-- ===== src/Lib.antt =====
-- The bluechip chain: an application of the Cosmos SDK with one module of its own, x/fixedmint, which
-- mints a fixed reward in every block.
--
-- The program and the files that model it:
-- - Wire and its children: the loops that the generated code of x/fixedmint/types/*.pb.go repeats.
--   Wire/Varint is `sov…` and `encodeVarint…`, Wire/Buffer the steps of `MarshalToSizedBuffer` from
--   the end of the slice to its front, Wire/Read the reading of a varint and of a length-delimited
--   field and `skip…`, and Wire/Message the loop of `Unmarshal` over a message's own cases.
-- - Fixedmint/Params: x/fixedmint/types/params.go, and the codec of params.pb.go in
--   Fixedmint/Params/Codec.
-- - Fixedmint/Keeper: x/fixedmint/keeper (`MintFixedBlockReward`, `GetParams`, `SetParams`,
--   `UpdateParams`, the query `Params`, `ModuleAccountInvariant`) and `ValidateBasic` of
--   x/fixedmint/types/msg_update_params.go.
-- - Fixedmint/Module: x/fixedmint/module (`InitGenesis`, `ExportGenesis`, `ValidateGenesis`,
--   `BeginBlock`, `EndBlock`) and x/fixedmint/types/genesis.go. Fixedmint/Module/Chain puts the
--   module into a running chain: blocks, messages, and events of other modules as steps.
-- - Fixedmint/Messages: the messages that hold parameters, on the wire: `MsgUpdateParams` of tx.pb.go in
--   Fixedmint/Messages/Update, `GenesisState` of genesis.pb.go and `QueryParamsResponse` of
--   query.pb.go in Fixedmint/Messages/Single, and the messages without a field.
-- - Api: api/bluechipchain/fixedmint/*.pulsar.go and its module/module.pulsar.go, the second generated form of
--   the same messages, which a client uses. Api/Runtime is what google.golang.org/protobuf does for them,
--   Api/Reflect the methods of `protoreflect.Message` as a record with its contract, Api/Buffer the steps of
--   `marshal` and the reads of `unmarshal`, and Api/Nested the field that holds parameters. A message each:
--   Api/Params, Api/Update (`MsgUpdateParams`), Api/Single (`GenesisState`, `QueryParamsResponse`), Api/Empty
--   (the two without a field) and Api/ModuleConfig (`Module`). A pointer that may be nil is an option, and the
--   unknown fields are kept with the message. Api/Interop is a client's bytes read by the chain, and back.
-- - App: app/. App/Accounts is the module accounts of app_config.go with `GetMaccPerms` and
--   `BlockedAddresses` of app.go, App/Ante is `NewAnteHandler` of ante.go, and App/GenesisAccount is
--   `GenesisAccount.Validate` of genesis_account.go. App/ZeroHeight is `prepForZeroHeightGenesis` and
--   App/Export `ExportAppStateAndValidators`, both of export.go.
-- - Cmd/MultiNode: cmd/bluechipchaind/cmd/testnet_multi_node.go, the stakes and ports of the nodes, with
--   `initGenFiles` in Cmd/MultiNode/InitialState, the copying of the genesis transactions with `isSubDir` and
--   `copyFile` in Cmd/MultiNode/Gentx, and `collectGenFiles` in Cmd/MultiNode/Genesis.
-- - Cmd/InPlace and Cmd/Export: `getCommandArgs` of testnet.go and `appExport` of commands.go in the same
--   folder; Cmd/InPlace/Init is `newTestnetApp` and `initAppForTestnet` of testnet.go.
-- - Tests: runs of the definitions, and the theorems at concrete inputs.
-- - MathInt and Sdk: what is not code of the repository, cosmossdk.io/math.Int, and the SDK's coins,
--   x/bank behind the interface `BankKeeper`, the store, the codec and addresses. Each is a record of
--   operations with a record of laws, and each has an instance, MathInt/Sample and Sdk/Sample with
--   Sdk/Sample/Laws, at which the tests run. The keepers, codecs and files that the parts of App and Cmd call
--   are records of the same kind beside the definitions that use them, with instances in a Sample beside them
--   or in the tests.
-- - Prelude: lists, Boolean tests, bits, and `Outcome`, what a Go call can end in.
--
-- Names are those of the code in snake case. A call of the keeper takes the state, the module's store
-- and the bank, and gives its outcome with the state then; the state is kept on an error and on a
-- panic as well, since it is the caller that discards it. A panic is an outcome, and so is `stuck`,
-- which is a loop of the model that ran out of rounds. A string is a sequence of bytes; an int or
-- uint64 is a natural number with its bounds written out: an int that is 2 ^ 63 or more is negative. A process
-- that `log.Fatal` or `tmos.Exit` ends comes back no more than one that panics, and is an outcome other
-- than a result. An iterator of a store is taken to visit the keys that it starts with, also where the code
-- writes to the store while it is open, of which the SDK promises nothing; App/ZeroHeight rests on it, and no result on testnet.go does.
--
-- Bounds and rounds: the loop of `Unmarshal` and that of `skip…` have as many rounds as the input has
-- bytes, since each round takes one at least; the loop of `encodeVarint…` has ten, as many groups of
-- seven bits as a uint64 has. The round trips assume that an encoding's length is below 2 ^ 63, as the
-- length of every Go slice is. A slice of the input that is out of range panics in the model as in Go, and an
-- index wraps around at 64 bits. A `math.Int` has 256 bits, beyond which an addition in the bank panics, so
-- that what says that a mint or a send succeeds asks for room.
--
-- The parts meet as follows. The chain calls `BeginBlock`, which reads the parameters from the store by
-- the codec and calls the bank; the authority's message comes over the wire, is checked by
-- `ValidateBasic`, and stores new parameters; genesis is the same parameters under JSON. The bank lets
-- fixedmint mint since App/Accounts says so.
--
-- Not modelled: the generated registration, descriptors and gRPC stubs, and `Equal`, which register code or
-- call it; logging, depinject and the wiring of modules, which are calls of the SDK; and of the command line
-- the cobra commands with their flags, `newApp`, and the loop of `initTestnetFiles` that makes keys and signs
-- genesis transactions, which is I/O throughout.
pub mod Prelude
pub mod Wire
pub mod MathInt
pub mod Sdk
pub mod Fixedmint
pub mod Api
pub mod App
pub mod Cmd
pub mod Tests
