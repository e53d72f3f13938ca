-- ===== src/Lib.antt =====
-- Top Banana!, a self-hosted quiz service in Go: models of the parts that decide what a player sees and
-- what is recorded, with theorems about them.
--
-- A quiz (internal/quiz) has rounds and questions. A player plays it alone as a game (internal/game): the
-- service issues questions in the order of the rounds, takes answers inside a window, scores them and ranks
-- the players; after a change it publishes a tick to the hub (internal/leaderboard), which wakes the open
-- boards. A host plays a quiz with a room of players as a live session (internal/livesession): a runner
-- takes each room through its phases by writes that name the phase they expect (internal/store), while the
-- host's requests write to the same row. An administrator writes a quiz to an archive with its media and
-- reads it back as a new quiz (internal/admin), and orders its rounds and questions (internal/store). Sign-in
-- is slowed down by two limiters (internal/auth), one of them for each source address (internal/request).
--
-- Files and what they model:
--   Quiz            internal/quiz/quiz.go, the domain types, the enumerations and NormalizedFields
--   Quiz/Progress   internal/quiz/round_progress.go, QuestionRoundProgress with its two loops
--   Game            the types and predicates of internal/game/game.go
--   Game/Clamp      clampTappedAt; Game/TimeLimit resolveAnswerWindow and resolveRoundBoundaryWindow
--   Game/Scoring    scoreAnswerCurve, over an interface of float64
--   Game/Slots      nextRoundSlot
--   Game/Store      the interfaces game.Store and quiz.Store, errors, and the monad of a service call
--   Game/Service    GetNextQuestion, GetAudioManifest, MarkRoundSeen, SubmitAnswer, ResetGamesForPlayerOnQuiz
--   Game/Creation   CreateGame and CreatePreviewGame
--   Game/Walk       GetNext and buildRoundBoundaryItem
--   Game/Scores     collectPlayerAnswers, scoreAnswers, computeGameScore, computeRoundRecap
--   Game/Results    GetResults; Game/Leaderboard GetQuizLeaderboard from the two lists that it reads
--   Hub             Subscribe, its unsubscribe function and Publish of internal/leaderboard/hub.go
--   Hub/Ticks       the hub of internal/livesession/hub.go, over the same channels
--   Auth            LoginRateLimiter and AccountLoginLimiter of internal/auth/login_limiter.go
--   Request         ClientIP and ParseTrustedProxyCIDRs of internal/request/clientip.go
--   Live            the session row and phases of internal/livesession/livesession.go
--   Live/Row        the writes to a row of internal/store/livesession.go
--   Live/Plan       questionPlan; Live/Env the runner's settings and clocks
--   Live/Transitions the transitions, the idle check and the scoring of internal/livesession/runner.go
--   Live/Runner     one beat of internal/livesession/runner.go, and Begin and Rearm
--   Live/Service    Start, StartQuiz, ArmStart, CancelStart, ArmQuiz and EndSession of internal/livesession
--   Live/Answers    SubmitAnswer of internal/livesession and RecordAnswer of internal/store
--   Archive         the manifest of internal/admin/quizarchive.go, and the errors of an import
--   Archive/Paths   archiveExtForMedia and archiveMediaPath of internal/admin/quizexport.go
--   Archive/Export  writeQuizArchive and the builder of internal/admin/quizexport.go
--   Archive/Limits  checkArchiveLimits and decodeArchiveManifest of internal/admin/quizimportarchivemedia.go
--   Archive/Forms   the checks of internal/admin/forms.go and of roundForm in internal/admin/rounds.go
--   Archive/Import  quizFromArchiveManifest of internal/admin/quizimportarchivemedia.go
--   Archive/Restore importQuizWithMedia and its rollback, internal/admin/quizimportrestore.go
--   Archive/Whole   ImportQuizArchive of internal/admin/quizimportarchive.go
--   Archive/Return  an export and then an import
--   Archive/Paste   quizFromImportPayload and stripCodeFences of internal/admin/quizimport.go
--   QuizStore       the tables of rounds and questions, with the statements that order them
--   QuizStore/Positions renumberDensePositions and clampIndex of internal/store/round.go
--   QuizStore/Rounds MoveRound and MoveRoundToPosition of internal/store/round.go
--   QuizStore/Questions MoveQuestionToRound of internal/store/round.go, MoveQuestionToPosition and
--     SwapQuestionPositions of internal/store/quiz.go
--   QuizStore/Options handleOptions of internal/store/quiz.go
--   Base            Boolean tests, integers, lists and options, shared by all
--   Examples        concrete quizzes, games, rooms and runs
--
-- State and operations. A service call takes a world, the database of a store interface with the ticks
-- published so far, to a result and a world. A beat of the runner takes a room, the row with what the runner
-- keeps of it, to a room; the session that the beat loaded is a separate argument, so that a row can have
-- moved on since. What a store, a clock or a reader answers is an argument of the call. Calls of a hub or a
-- limiter hold a mutex and are single steps; a send on a closed channel and a second close, which panic in
-- Go, have no result.
--
-- An import is a function from the calls made so far to a result and a longer list of calls, the newest
-- first; zip, JSON and the services that store media are parameters, and what a call leaves in a database or
-- on a disk is not modelled. A transaction of the quiz store is a
-- function from a table to a table or an error, which leaves the tables as they were. SwapQuestionPositions
-- lists its rows before its transaction begins; the model has no writer in between.
--
-- Numbers. A time is a natural number of nanoseconds since the zero time, a duration a number of
-- nanoseconds, an id a natural number. Where the source subtracts a duration from a time to compare, the
-- duration is moved to the other side. Points are natural numbers; int cannot overflow at a thousand points
-- for each answer. float64 is an interface with the laws of correctly rounded operations that the curve
-- relies on; fixed-point numbers satisfy them.
--
-- Positions in the quiz store are integers, negative while rows are parked, and so is the time limit of a
-- quiz. The limits of a question and of a round are natural numbers: a negative one is read as 0, which the
-- checks of the forms refuse and the windows of a game pass over in the same way.
--
-- Loops are structural recursion on the list that the source ranges over. The digits of a number are made on
-- fuel, n + 1 rounds for n, which is more than it has digits. `play` of Game/Slots/Drain counts calls, and
-- its theorem says how many are enough.
--
-- Not modelled: logging, HTTP handlers, SQL and its transactions beyond the clauses of those writes,
-- templates and the browser's code. slices.SortFunc leaves the order of equal elements open; an insertion
-- sort is one of the orders that it allows.
pub mod Base
pub mod Quiz
pub mod Game
mod Examples
pub mod Auth
pub mod Hub
pub mod Live
pub mod Archive
pub mod QuizStore
pub mod Request
