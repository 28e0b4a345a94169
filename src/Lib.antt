-- ===== src/Lib.antt =====
-- The Superfluid Aragon app: an Aragon app whose agent receives and sends streams of Super Tokens.
-- A background script (app/src/script.js) subscribes to the agent and to Superfluid's CFA contract and
-- folds their events into a cached state; the panels (app/src/app-state-reducer.js and the components)
-- format that state, and send transactions through the app, the host contract or a Super Token.
--
-- How the parts meet: the script's start (Startup) takes the cached state, loads the Super Tokens and
-- subscribes from block ranges (Sync); each event goes through the reducer (Store.Handlers), which calls
-- the updaters of the tokens, the senders and the flows in that order, all of which share a cache of
-- contracts; the panels' reducer (Reducer) reads what the store returns; the forms (Forms) check what
-- the user enters and ask for the actions (Actions), with a panel (Hooks.Panel) around them that the end
-- of an action closes (AppLogic).
--
-- Which file models what:
--   Js, Js/Exec, Js/Search, Js/Upsert, Js/Sort: exceptions and promises as results, module-level
--     variables as passed state, array methods whose test may throw, the stable sort.
--   Packages, Chain: what the repository imports and does not hold (web3, bn.js, date-fns, texts) and
--     what it asks of the chain, as records that every definition takes.
--   Helpers: app/src/helpers, with web3.js in Helpers/Web3, network.js and token-list.js in
--     Helpers/Network, token.js in Helpers/Token, math.js in Helpers/Decimals, time.js in Helpers/Time,
--     conversion.js in Helpers/Conversion, and the amounts of superfluid.js in Helpers/Amounts.
--   Store/Data: the cached state. Store/Flows: updateFlows. Store/Tokens: updateSuperTokens and
--     newSuperToken. Store/Senders: updateSendersSuperTokens (all of app/src/store/updaters.js).
--     Store/Handlers: app/src/store/event-handlers.js and the reducer of app/src/script.js.
--   Startup: initializeState of app/src/script.js, createSettings, fetchTokenList and
--     loadInitialSuperTokens of app/src/store/helpers.js, app/src/store/preset-super-tokens.js.
--   Sync: retryEvery and subscribeToExternals (app/src/store/helpers.js): Sync/Blocks has its block
--     ranges, Sync/Streams its merged and concatenated streams, the triggers they become, and the
--     dispatch of a trigger by its name in app/src/script.js.
--   Reducer: app/src/app-state-reducer.js. Actions: app/src/app-logic.js, the transactions. AppLogic:
--     useAppLogic of the same file, from the request of a form to the panel that its action closes, with
--     app/src/hooks/useContract.js.
--   Hooks/Panel, Hooks/Filters: app/src/hooks/usePanelState.js, app/src/hooks/useFilteredFlows.js with
--     app/src/flow.js. Hooks/Rates, Hooks/Items: app/src/hooks/useConvertRates.js and
--     app/src/hooks/useSuperTokenItems.js. Hooks/Identity: app/src/providers/IdentityManager.js.
--   Forms/Selector, Forms/Amounts, Forms/UpdateFlow: the forms of app/src/components/SidePanels, with
--     the effects that preset the fields in Forms/UpdateFlow/Presets and Forms/DepositPreset, the effect
--     that shows an open flow's description in Forms/UpdateFlow/Description, and FlowRateField.js and
--     AmountInput.js in Forms/FlowRate. Forms/Selector/Renders has the fetches of the token selector.
--   Components/FlowsTable: app/src/components/Flows/index.js, its order, rows and menus.
--     Components/Carousel: app/src/components/SuperTokens/Carousel/index.js, the cards in view.
--     Components/Card: what the cards of app/src/components/SuperTokens show. Components/Warnings:
--     app/src/components/IncomingFlowsWarnings.js. Components/AutoComplete:
--     app/src/components/LocalIdentitiesAutoComplete.js, the recipient's field.
--   Tests: sample data, and the theorems at concrete inputs.
--
-- Representation: an awaited promise that rejects and a throw are the same `throw`; `undefined` is
-- `none`; a big number is the integer that it holds; an amount of an event keeps whether it is a text
-- or a number, since the code compares both; an object used as a map is an association list. A React
-- component's state is a record, each callback a function on it, and a timer is a time in the record.
-- Numbers with fractions are a parameter (Floats), as is `Number(s) <= 0`.
--
-- Fuel: the only recursion on fuel is that of retryEvery, which is given one unit for each allowed call.
-- Every other loop goes over a list.
--
-- Interleaving: the events of several queries arrive in any order that keeps the order of each (Merge);
-- a history of events, of moves of the carousel or of actions on a panel is a list or a relation of steps.
--
-- Not modelled: rendering (markup, styles, focus), the contract contracts/Superfluid.sol, the deployment
-- scripts and the ABI tables. An undefined address of a token is `none` in the comparisons, and the text
-- "undefined" as a key of the contract cache, in a call and in a token that is stored. Positions in the
-- carousel are whole half pixels, and a text is as long as it has characters.
pub mod Prelude
pub mod Js
pub mod Packages
pub mod Chain
pub mod Helpers
pub mod Store
pub mod Sync
pub mod Reducer
pub mod Actions
pub mod AppLogic
pub mod Components
pub mod Forms
pub mod Hooks
pub mod Startup
mod Tests
