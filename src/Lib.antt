-- ===== src/Lib.antt =====
-- A verification library of the review agent (review_agent/**/*.py): a service that reads a draft which a
-- requester sends, has a model list its weaknesses, asks the requester about them one by one, has a
-- final gate judge the revised draft, and delivers a summary to the responder.
--
-- Paths stand from review_agent/ in the repository. How the parts work together: a message comes in by the
-- webhook of Lark (routers/lark_webhook.py, lark/webhook.py) or by an event of Slack (slack/adapter.py). It
-- becomes a row of the table of tasks and stands in the queue of its requester (tasks/queue.py); one worker
-- takes the tasks (tasks/worker.py) and calls the dispatcher (core/dispatcher.py), which drives a
-- session through its stages with the pipeline (pipeline/*.py). All state is in the storage
-- (core/storage.py): sqlite tables, and files in a directory for each session.
--
-- Prelude: texts as lists of code points, tests on the native numbers, lists, JSON values, parts of a text.
-- Core/Enums, Core/Models, Core/Cursor: core/enums.py and core/models.py, with the cursor over findings.
-- Core/Storage: core/storage.py. Tables are lists of rows, the directories an association list from the
--   session's identifier to the record of its files; each method is a function on that state. A time
--   that a method reads is an argument.
-- Core/Dispatcher: core/dispatcher.py. World has the state and the actions: functions that change the
--   world and return, or raise. Stages has the helpers of the stages (_do_merge, _do_final_gate,
--   _do_build_and_deliver, _emit_next_finding) with the pipeline functions that they call, CloseChain
--   has _enqueue_close_chain, Scanning has _do_scan and _do_confirm_topic, Handlers has
--   _handle_close_confirmation and the replies to questions, Registration has _maybe_auto_register. Incoming has
--   _handle_incoming_message, _handle_requester_in_session and dispatch.
-- Core/Material: the part of core/dispatcher.py that brings new text. Reading has the actions that also
--   use the network, Supplement _append_supplementary_material, Intake the saving and the reading of a
--   first message, Gate _handle_requester_no_session and _handle_awaiting_material_confirm, Later the
--   material that comes at the confirmation of the subject and during the questions.
-- Pipeline/Intents, QaLoop, Scan, FinalGate, Deliver, ConfirmTopic, Extract: the files of those names in
--   pipeline/, and pipeline/_json.py; Deliver/Backends is pipeline/delivery_backends/*.py.
-- Pipeline/Ingest: pipeline/ingest.py and pipeline/ingest_backends/*.py. Urls finds the links, Fetch reads
--   the documents and pages of a text, Formats chooses the backend of a file, Files runs it.
-- Tasks/Queue, Tasks/Worker: tasks/queue.py and tasks/worker.py.
-- Lark: Message is lark/types.py, Post the text of a rich message and Webhook the route of the webhook
--   (routers/lark_webhook.py, with the signature of lark/webhook.py), Client the token with its cache
--   (lark/token.py) and the loop of requests (lark/client.py).
-- Slack: Dedup, Event and Adapter are slack/adapter.py, Mrkdwn is slack/mrkdwn.py.
-- Llm/Deepseek: the loop of attempts of llm/deepseek.py.
-- Util/Md, Util/FileMagic, Util/Ids: util/md.py, util/file_magic.py and util/ids.py.
-- Checks: every theorem with hypotheses at a concrete value.
--
-- Parameters, since they are libraries, services, files or the clock: str.lower and str.upper,
-- sha256 in hexadecimal digits, json.loads, the decryption of an envelope, the classes of the regular
-- expressions, the programs and libraries that read a file (documents, pictures, speech), the answers of
-- the network and of the model, the clock, the sending of messages, and the settings with what
-- delivery_targets.json holds. They are functions of the number of the call where they may answer
-- differently each time. Prompts are left out, since any answer of the model may come. Times of a clock
-- that are compared are whole numbers.
--
-- Bounds and fuel: numbers have no bound in Python, and have none here. Recursion is structural, the loops
-- of requests by the attempts that are left (four for Lark, as its range says; the setting's number for the
-- model), but for the digits of an identifier's number, which get one more unit of fuel than the number
-- has; any fuel above the number gives the same digits (Pipeline/Scan/Parse/Digits).
--
-- Untyped input: where the code would call a method of a value that is no text or dict, the definition
-- takes the exception that Python raises; the events of Slack are records with the fields that are read.
--
-- Not modelled: the tables of pipeline/ingest_backends/bitable.py, lark/parser.py, the conversion of
-- markdown in slack/mrkdwn.py (a parameter where a message is sent), the texts of messages in
-- pipeline/_format.py and of prompts, the pages of the dashboard, the configuration and the command line,
-- and util/path.py and util/log.py, which are the checks of paths and the logs.
pub mod Prelude
pub mod Core
pub mod Lark
pub mod Slack
pub mod Llm
pub mod Util
pub mod Pipeline
pub mod Tasks
pub mod Checks
