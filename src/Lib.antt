-- ===== src/Lib.antt =====
-- A model of the MCP server for the Vigor 3912S router, and theorems on it.
--
-- The server gives an AI client tools that run commands on a router over SSH. A read tool runs at
-- once. A write tool takes two calls: the first previews the command and makes a pending
-- confirmation, a human signs the payload of that confirmation, and the second call brings the
-- signature, which is consumed before the command is sent. The parts and their files:
--
-- - Crypto (src/tools/approve-crypto.ts): buildSignPayload, digestCommand, parseApprovePublicKey and
--   verifyApprovalSignature. The hash, the key parsers and the signature scheme of node:crypto, and
--   the UTF-8 of Buffer, are the record Crypto, a parameter everywhere.
-- - Gate (src/tools/confirm-gate.ts): the class ConfirmGate. Its state is the record ConfirmGate,
--   its maps are association lists in insertion order, and each public method is a function from
--   the state and a Call. The Call holds the time, the random draws and how far the file operations
--   get, so a method reads the clock once. Gate.History runs lists of calls.
-- - Forbidden (src/commands/forbidden.ts) and CliResult (src/commands/router-cli-result.ts): the
--   two tests on texts. A text is a list of UTF-16 code units; the letters that are folded are
--   those of ASCII.
-- - Crypto.Signing is the human's side of src/tools/approve-crypto.ts: generateApproveKeyPair,
--   publicKeyToConfigValue and signApproval, over the record Signer.
-- - Zod: the schema values that the program builds, as the calls of the library zod. Validators is
--   src/commands/validators.ts, and Validators.Netmask the arithmetic of ipv4Mask.
-- - Catalog (src/commands/registry/families): the curated tools. Catalog.Entries are the calls of R, W
--   and S; Catalog.Inputs follows the tables of fields that most toInput functions are, and the
--   functions that are no table are written out beside their tool. The interpreter of the tables is
--   a means of this model and stands for no function of the source. Views, Lan, Ports, Services,
--   Access, Filters, Directory, Mngt, Qos, Csm, Sys, Wan and Swm hold the tools; Curated is
--   CURATED_REGISTRY of src/commands/registry/index.ts, and Switches lists the tools that switch.
-- - Catalog.Registered is the rest of src/commands/registry/index.ts: the whole registry, the lists of
--   all, read and write commands, and findCommand.
-- - Schema: JSON schemas and their conversion (src/sdk/schema-to-zod.ts), with Schema.TopLevel for the
--   arguments of a tool and Schema.Secrets for src/sdk/secret-fields.ts. The recursions are on the
--   schema. Registry.Builders takes the result as an argument, by Schema.TopLevel.converted_by.
-- - OperationIndex (src/sdk/operation-index.ts): the SDK's export as a tree, whose operations carry an
--   address that stands for the identity of the object. OperationIndex.Reached says, apart from the
--   walk, which operations are in the tree.
-- - Allowlist (src/commands/read-allowlist.ts): how the allowlist of raw reads is built. What a
--   schema accepts is a parameter.
-- - Values and Registry (src/commands/registry/types.ts, src/commands/sdk-invoke.ts): arguments, tools
--   and SDK bindings. Registry.Builders is src/commands/registry/builders.ts, Registry.Linking is
--   attachSdkVoidBindings of src/commands/registry/index.ts with src/sdk/void-operation-index.ts, and
--   Registry.Generated is src/commands/registry/families/sdk-generated.ts.
-- - Policy (src/commands/tool-policy.ts): the two tables, row by row, and applyToolPolicy.
-- - Redaction (src/tools/redaction.ts): markers in commands and stars in arguments.
-- - Log (src/db/log.ts): the request log and the write audit. SQLite is a parameter: a function that
--   says of each statement whether it throws and which row id it gives.
-- - Client (src/ssh/sdk-vigor-client.ts, src/ssh/sdk-error.ts, src/ssh/client.ts, and isAllowedReadCommand
--   of src/commands/read-allowlist.ts): the guards in front of the SDK. The field `sent` of the model
--   lists what reached the SDK; the answers of the SDK are any function of that list, in the
--   record Sdk, so that nothing is assumed of the router.
-- - Transport (src/ssh/ssh-client-transport.ts): the transport under the SDK, over an SSH client whose
--   answers are any function of the calls that it has seen.
-- - Executor (src/commands/write-executor.ts, src/commands/tool-log.ts): executeWrite, over the World of
--   gate, client and log. The source runs write calls one after another (runExclusive), so a call
--   is a function of the whole World. Whether the request is cancelled is read at the two places
--   where the source reads it.
-- - Build (src/commands/build.ts): the filters of registerAllTools and the handler of a read tool.
-- - Config (src/config.ts): loadConfig over the environment. The number parser and the path
--   functions are the record Runtime.
-- - Server (src/index.ts, src/commands/tool-count.ts): buildServer, which puts the parts together from a
--   configuration, and the message with the number of tools. Opening the log is a parameter.
-- - Common: texts, maps, Boolean tests and errors, shared by all.
--
-- Thrown errors are the values of Result. Loops are recursions on lists, and the only fuel is that of
-- the decimal digits (Crypto.Digits): a number is given one more than itself, which is more than it
-- has digits. The drawing of a confirmation id is a loop over the draws that the call brings; when
-- they end, the model answers out_of_draws, which the source cannot.
--
-- Not modelled: what a zod schema accepts, which is the library's; the stdio connection and the
-- signals of the process; the texts shown to a human (confirmMessage and notes); the opening of the
-- database file; and the scripts of tools/, which talk to a server from outside.
pub mod Common
pub mod Crypto
pub mod Gate
pub mod Forbidden
pub mod CliResult
pub mod Values
pub mod Zod
pub mod Schema
pub mod OperationIndex
pub mod Validators
pub mod Registry
pub mod Policy
pub mod Redaction
pub mod Log
pub mod Client
pub mod Executor
pub mod Build
pub mod Server
pub mod Config
pub mod Transport
pub mod Catalog
pub mod Allowlist
