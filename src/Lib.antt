-- ===== src/Lib.antt =====
-- Verification of the backend of a predictive dialer: a NestJS service in TypeScript that calls leads
-- for the agents of several companies through Asterisk, and sends text messages.
--
-- The parts and how they interact.
--   * The dialer (src/dialer/dialer.service.ts) calls leads in bursts, holds the customers who enter
--     the application, pairs them with free agents, bridges the two legs, transfers by keys, and closes
--     the rows of calls that end. It asks the agents' service for free agents, the CRM for the next lead,
--     Prisma for rows, Asterisk (ARI) for channels, and the websocket gateway for messages to managers.
--   * The websocket gateway (src/ws-gateway/ws-gateway.gateway.ts) keeps the status of the agents and
--     tells the managers of each company, and the admins of all.
--   * The dialplan manager (src/utils/dialplan/dialplan-manager.ts) turns a tree of IVR nodes into an
--     Asterisk dialplan, and writes it to the files of Asterisk.
--   * The system manager (src/system-manager/system-manager.service.ts) keeps the SIP endpoints, numbers,
--     extensions, settings and IVR trees, and saves and removes the dialplans of trees.
--   * The SIP debugger (src/debugger/sip) listens to captured packets, stores the messages of each call in
--     a session, and alerts the company of the callee, through the bot of
--     src/utils/telegram/telegram.service.ts, in the chats that are bound to the company.
--   * Voicemails (src/voicemail/voicemail.service.ts) are rows for the sound files of a mailbox.
--   * The CRM (src/customer-crm/customer-crm.service.ts) has the services, leads and statuses of
--     appointments of each company.
--   * The agents' service (src/agent/agent.service.ts) creates agents within the limit of a
--     subscription, and finds those that are free or online.
--   * Authentication (src/auth/auth.service.ts and src/utils/guards/jwt.guard.ts) gives tokens to agents,
--     and lets the requests that bring one pass.
--   * Text messages (src/sms/sms.service.ts, src/sms/processors/sms.processor.ts,
--     src/sms/processors/topying.processor.ts, src/sms/processors/commpeak.processor.ts and
--     src/sms/processors/smpp.processor.ts) are queued by src/sms/sms.controller.ts, sent, and billed by the
--     reply of the provider or by the delivery reports of src/utils/providers/smpp.
--   * The AGI server (src/utils/agi/agi-server.ts) answers a call, plays a tree of prompts to it, and parks
--     it if no agent is available. Parked calls (src/parked-call/parked-call.service.ts) are rows, which the
--     system manager pairs with agents.
--   * The PJSIP files (src/utils/pjsip-writer.ts and src/utils/pjsip) hold a section for each agent and for
--     each provider of lines (src/sip-provider/sip-provider.service.ts).
--   * The dashboard (src/app.service.ts) counts calls and agents. Call logs
--     (src/call-log/call-log.service.ts) are written when a call ends, and free its agent.
--   * Pagination (src/utils/providers/pagination/pagination.service.ts) answers the searches of several
--     services with pages of a table.
--
-- The files.
--   * Common has the tests, lists and dictionaries that the parts share: a `Record` or `Map` of the
--     source is an association list in the order of insertion.
--   * Prisma is the interface of a table of the Prisma client, which is no code of the repository: the
--     operations that the source calls, with their documented behaviour as laws. `in_memory` is an
--     instance.
--   * Dialer.State has the fields of `DialerService`, and the requests that its handlers make of the
--     world outside. Dialer.Async is the monad of an `async` handler: the fields and the list of requests so
--     far are passed on, and each awaited call has an answer (a value, or a rejection) with the change that
--     other handlers make to the fields while it is awaited. The answers are parameters, so a theorem
--     covers all interleavings at the awaits.
--   * Dialer.Control is `startAgentDial`, `stopAgentDial`, `getAgentMetadata` and
--     src/dialer/locks/lock.service.ts; Dialer.Blast is `blastDial`; Dialer.Stasis is `onStasisStart` and
--     the timeout of `setHoldTimeout`; Dialer.StateChange is `onChannelStateChange`; Dialer.Destroy is
--     `onChannelDestroyed`; Dialer.Dtmf is `onDtmfReceived` and `handleBlindTransfer`.
--   * Dialplan.Conf has the texts of extensions.conf and extensions_custom.conf. SystemManager has the
--     registry, and its children the settings, the events of `isPjsipUserOnline` and the IVR trees.
--     Sip.Sessions is src/debugger/sip/sip-session/sip-session.service.ts, and Sip.Listener is
--     src/debugger/sip/sip-listener/sip-listener.service.ts.
--   * WsGateway, Dialplan, Crm, Agents, Auth, Telegram, Voicemail, Sms and Pagination model the parts of
--     the same names; a function of the source keeps its name in snake case. WsGateway.Reachability is the
--     gateway as a step relation, Sms.Workers is the worker of sms.processor.ts, and Sms.Topying that of
--     topying.processor.ts, Sms.Commpeak that of commpeak.processor.ts, Sms.Entry is sms.controller.ts, and
--     Sms.Reports the handlers of `deliver_sm`. Statistics is app.service.ts, Agi agi-server.ts, Pjsip the
--     PJSIP files with Pjsip.Provider and Pjsip.Providers for those of lines, ParkedCalls the parked calls, and
--     SystemManager.Machine the checks of `getCoreStatus`. CallLogs is src/call-log/call-log.service.ts,
--     Ordering src/utils/order-by.ts, Crm.Members src/customer-crm/utils/company-members.service.ts,
--     Crm.Import the new leads of the CRM, Agents.Overview the overview of an agent, SystemManager.Files the
--     sound files of prompts, and Sip.Parser src/debugger/sip/sip-listener/sip-parser.ts. The children of each
--     are named for what they prove; the files named Tests run the definitions and apply the theorems to
--     concrete inputs.
--
-- Numbers, bounds and loops. Counts, ids of companies, times and ports are natural numbers; an amount of
-- money is a natural number of ten-thousandths. Every loop is over a list, a text, a tree, or the at most five
-- rounds of a burst, and is a structural recursion, so no fuel is used. Texts are native strings.
--
-- Simplifications. An object of the store that two handlers share is read as a copy at the time of the
-- read. Log lines are left out, and so are columns that no operation reads. Random choices, ids that Prisma
-- makes, hashes, the clock and lower case are parameters; so are `trim` and `split` outside Dialplan.Conf and
-- Sip, where they are the functions of Common.Text. The operations on tables outside the dialer and
-- Sip.Sessions run without another query between their calls. Texts that are searched are lists of
-- characters.
--
-- What is not modelled: routes, modules, validation decorators and start-up, which only pass on; the
-- connections to Asterisk, SMPP servers and Telegram, which packages make; errors of reads and
-- writes of files; the usages of the machine in the system manager; the registration of users and
-- subscriptions, which no file covers.
pub mod Common
pub mod Prisma
pub mod Dialer
pub mod WsGateway
pub mod Dialplan
pub mod SystemManager
pub mod ParkedCalls
pub mod Agi
pub mod Pjsip
pub mod Statistics
pub mod Sip
pub mod Telegram
pub mod Voicemail
pub mod Crm
pub mod Agents
pub mod CallLogs
pub mod Auth
pub mod Sms
pub mod Ordering
pub mod Pagination
