-- ===== src/Lib.antt =====
-- A model of the logic of the Inkstave frontend (frontend/src), a collaborative LaTeX editor.
--
-- The parts and how they interact. A document is a shared text (`Y.Text` of Yjs). Several features
-- write into it: suggesting mode plans what an edit does to the text and to the records of the
-- suggestions (modules/collab/suggestions); the review of an agent's proposal places its hunks in
-- the text as it is now and writes the result (modules/diff-review); the search of a project finds
-- matches and replaces them (modules/project-search). The agent itself reports what it does as events,
-- which a reducer folds into the transcript that the user sees (modules/agent). A connection carries the
-- shared text and, through a throttle, the presence of the user to the server (modules/collab); a document
-- that is not shared is saved by the autosave (modules/editor). On their own stand the table builder
-- (modules/insert-tools), the file tree (modules/file-tree), the list of comments (modules/discussion),
-- the includes of a project (modules/project-index) and the dictation (modules/agent/voice).
--
-- Files:
-- - Prelude and below: numbers, lists, texts, sorting and integers that the components share. A text
--   is the list of its UTF-16 code units; a string that is only compared is a `String`.
-- - Edits: edits of a sequence, from the back one by one or from the front in one pass.
-- - Crdt: the interface of `Y.Text`, a parameter; Crdt.Apply is modules/diff-review/crdt-apply.ts.
-- - Suggestions.Planner: modules/collab/suggestions/record.ts (`uncovered`, `collapse`, `grow`,
--   `planEdit`). Suggestions.Records: the records in model.ts (`resolveSuggestion`, `readSuggestions`,
--   `ownInsertions`) and the decisions on them in review.ts. Below Planner, Runs and Replay run the
--   operations, Within, Order and Ascending keep what holds of the insertions, Walk is the loop over the
--   changes, Coverage and Gaps say which characters the insertions hold; Records.Reads joins the two parts.
-- - Review: modules/diff-review/hunks.ts. Hunk has the hunks, Lines `toLines` and `join`, Locate
--   `locate`, Rebase `rebaseHunks`, MinimalEdit `minimalEdit`. Review.Inline is inline-review-model.ts and
--   the state of inline-review-extension.ts, Review.Inline.Actions inline-review-actions.ts.
-- - Search: modules/project-search. Find is find.ts, Expand and Replace are replace.ts.
-- - Agent: modules/agent. Types is types.ts, Handlers, Reducer and History are reducer.ts, Actions is what
--   useRunActions.ts and useRunStream.ts do to the state. Agent.Voice is modules/agent/voice/session.ts.
-- - Table: modules/insert-tools/table/table-model.ts.
-- - FileTree: modules/file-tree/tree-utils.ts, `findNode`, `isSelfOrDescendant`, `addChild`, `updateNode`,
--   `removeNode` and `reparent`.
-- - Collab.Throttle: modules/collab/throttle.ts, the closure's variables as a state and calls, the timer
--   and cancellations as steps.
-- - Collab.Provider: modules/collab/InkstaveWsProvider.ts, its private fields as a state; the socket, the
--   token, the timers, the document and the awareness as steps. It uses Collab.Throttle.
-- - Editor.Autosave: modules/editor/autosave. Autosave has the state and the save (types.ts,
--   use-autosave-flush.ts), Run the switch of the document and the hook (use-document-autosave.ts).
-- - Discussion.Order: modules/discussion/comments/order.ts.
-- - ProjectIndex.Includes: modules/project-index/resolve-includes.ts.
--
-- State and operations. Every operation is a function from the old state to the new one; the names are
-- those of the source in snake case. Code that waits (a request, a token, a timer, a recognizer) is cut where
-- it waits: the steps before and after are functions, and a list of events runs them in any order. What a
-- step sends or calls is its second result. A loop that counts up to a bound is recursion on the rounds that are left.
-- The binary search of `lineIndexOf` has as much fuel as there are lines, since every round shortens its
-- range; the scan of a template has as much as the template is long, since every round reads a unit;
-- the visits of the files of a project have more than there are files, since every visit that reads items
-- marks another file as seen.
-- `null`, an absent field and -1
-- are `none`.
--
-- Parameters: `Y.Text` and its law for `delete` and `insert` within the text; where an encoded position of Yjs
-- points now, which is within the text; how two times or names compare as texts; the results of the regular
-- expression engine; `trim` and `trimStart` of a string; what a plain object inherits; the translation of a key and the decimal text of a
-- number; what `JSON.parse` makes of a tool's result; the text that an edit removes, the clock and the new
-- ids of the planner; whether a send of the socket throws, and what y-protocols answers to a message; what the
-- recognizer of the browser reports, also while it is being stopped; what the server answers to a save; where
-- an edit of the text moves a position.
--
-- Not modelled: React components and the other hooks, requests, CodeMirror, the encodings of y-protocols, the
-- origin of a transaction, the order in which the file tree is shown, the other parts of the frontend and the server.

pub mod Prelude
pub mod Edits
pub mod Crdt
pub mod Search
pub mod Agent
pub mod Suggestions
pub mod ProjectIndex
pub mod Review
pub mod Table
pub mod Collab
pub mod Discussion
pub mod Editor
pub mod FileTree
