-- ===== src/Lib.antt =====
-- Verification library of BENCpass, a password manager for Firefox whose vault is merged on the
-- clients.
--
-- The program keeps its records sealed as envelopes. A sync pulls the server's envelopes and merges
-- them with the local ones without a key; an unlocked vault reads and changes the plaintexts; the
-- page matching decides which login a page may be offered and may receive.
--
-- Modules, and the files of the repository that they model:
--   Background  src/ext/background.js: the state of the page, its lock and timer, and who sent a message.
--               Protocol is src/ext/protocol.js, Table the maps of the page. Offering, Choosing,
--               Generating, Capturing, Saving and Unlocking have the handlers, Machine the listener and
--               the steps. Released says what may be sent, Watched what the timer owes; Offered,
--               Chosen, Stored, Gathered, Opened and Stepped carry both through the handlers to Always.
--               QuietOpening leads to Quiet; Generated and Captured have the other theorems. A handler
--               is one step, though the browser may run another one while it waits.
--   Map         JavaScript's Map and Set with string keys, in insertion order.
--   Text        JavaScript's strings as lists of code points: trim, toLowerCase, split, join.
--   Sort        Array.prototype.sort, which is stable.
--   Envelope    the envelopes of src/core/vault.js and src/core/crypto.js.
--   Merge       src/core/merge.js: merge and confirmPushed. One function for each branch of the loop;
--               Outcome says what one id comes to, Fold and Reports carry that through the loop; Refined,
--               Safety and Settles have the theorems.
--   Crypto      src/core/crypto.js: aadRecord, sealRecord, openRecord; openEnvelope of vault.js.
--   Header      src/core/crypto.js: the header of a vault, its wrapped keys and its proof.
--   Vault       src/core/vault.js: the state and park. Records has add, update, touchUsed, remove and
--               supersede, Opening has unlockWithVaultKey, Adopting has applyEnvelopes. Shown says which
--               record an envelope shows; Parked, Opened, Adopted, Written and
--               Refusing have the theorems, Guarded and Settled what they need of one entry.
--               Password has the waiting header and unlock, Wrappings the changes of the password and
--               the other wrappings, Forking has resolveParked; Proven, Changed and Forked have the
--               theorems about them.
--               Importing has list and importRecords, Dated and Imported the theorems about them.
--               Provisional is src/core/provisional.js; Listed and Kept have what it does.
--   Generate    src/core/generate.js: randomInt and generate, over the draws that the platform hands out.
--               The fuel of generate is the number of its attempts, 1000.
--   Recovery    src/core/recovery.js: newRecoveryCode and normalise.
--   Sync        src/core/sync.js: Codes has the enrolment codes, Client what is kept and asked for and
--               the steps with their errors, Round a pull with its merge, Once syncOnce, Joining
--               joinVault. Always, Marks and Marked follow the mark through the steps; Served
--               has the other theorems.
--               Routes and Reached have the choice between addresses.
--   Fields      src/core/fields.js: classifyLoginFields and isUsernameOnlyStep.
--   Transfer    src/core/transfer.js: Csv has toCsv and parseCsv, Import fromCsv, Json fromJson;
--               RoundTrip, Restored and Bounds have the theorems.
--   Plain       the plain objects of src/core/model.js, as maps of values, with the spread.
--   Model       src/core/model.js: newRecord, applyPatch, markUsed, normalise, clampTime,
--               searchableFields.
--   Host        src/core/match.js: normaliseHost to sameSite.
--   Match       src/core/match.js: hostOf, scoreUrl, scoreRecord, matchesFor, captureTarget, canFill,
--               canFillAddress, addressesFor.
--
-- All loops run over a list, but for the digits of a revision n: each division by ten brings n down,
-- so the fuel n + 1 is enough. Revisions, times and counts are natural numbers; a value
-- of a record may also be a negative or a not finite number. The case of letters is that of ASCII.
-- The URL parser, localeCompare and the Public Suffix List are the parameter Match.Platform.
--
-- WebCrypto, Argon2 and JSON are the parameter Crypto.Platform, the server and the network the
-- parameter Sync.Client.Server, in which a request is answered or not. Random ids and nonces are arguments.
-- A write to storage succeeds. A generation of a header that `Number` reads as negative or a fraction,
-- and a sequence number that is null or a text, are left out; so are the values of wrong types on which
-- the code throws: Vault.Importing and Vault.Forking name them.
--
-- Not modelled: the search and the storing of a vault, the orders of the list, the signing of requests,
-- and, of the background page, its settings and devices. Of src/core/address.js the background page
-- uses the functions in the parameter Background.Addresses. The pages that only draw are left out.
pub mod Prelude
pub mod Map
pub mod Envelope
pub mod Text
pub mod Plain
pub mod Model
pub mod Sort
pub mod Host
pub mod Match
pub mod Merge
pub mod Background
pub mod Crypto
pub mod Header
pub mod Vault
pub mod Generate
pub mod Recovery
pub mod Sync
pub mod Transfer
pub mod Fields
