-- ===== src/Lib.antt =====
-- sp0rkle, an IRC bot: its calculator, its string utilities, the dates it reads, its Markov chains,
-- the parts of the bot that a line of IRC goes through, some of its drivers, and the database that
-- its collections and its configuration are kept in.
--
-- A line comes in as a Context (bot/context.go). The filters may drop it, the rewriters change what
-- the bot says, the command set finds the command that the line starts with, and the poller set
-- starts and stops the pollers when connections come and go. The commands and the handlers of the
-- drivers (drivers/) work on collections (collections/), which the database keeps (db/) in buckets of
-- the bbolt library. The server set connects the bot to its servers and shuts it down.
--
-- Which file models which part:
-- - Prelude: shared names; Go strings are lists of bytes, Go maps are association lists, and an int
--   is an integer that wraps around at 64 bits.
-- - Util.Utf8, Util.Lexer: the Lexer of util/lexer.go, which reads a string rune by rune;
--   Util.Lexer.Number: its method Number. Util.Unicode: the tests of runes, a parameter.
-- - Util.Text, Util.Nick, Util.Colours: util/utils.go, the functions on nicks, on additions to
--   factoids and on the colour codes of IRC. Util.Pointer: its function FactPointer;
--   Util.Since: its function TimeSince; Util.Plugin: its function ApplyPluginFunction.
-- - Calc.Token, Calc.Lex, Calc.Shunt, Calc.Eval: util/calc/calc.go: the tables, the lexer, shunt and
--   shuntStep, calc and Calc. Numbers are a type with the operations of math as a parameter.
-- - Datetime.Tables, Datetime.ZoneTable, Datetime.Words, Datetime.Lex: the tables, look-ups and zones
--   of util/datetime/tokenmaps.go and the method Lex of util/datetime/lexer.go. Datetime.State,
--   Datetime.Setters, Datetime.Resolve: the rest of util/datetime/lexer.go, what the parser tells
--   the date lexer and the time that comes of it. Datetime.Calls: any run of these calls.
--   Datetime.Time: what this needs of package time.
-- - Markov: util/markov/markov.go, generate with Sentence and Action.
-- - Bot.Filter, Bot.Context, Bot.Commands, Bot.Pollers: bot/filter.go, bot/commands.go,
--   bot/rewriteset.go, bot/context.go, bot/commandset.go and bot/pollerset.go. A goroutine of a
--   poller stands by its quit channel, pointers by numbers.
-- - Bot.Servers: bot/serverset.go, whose goroutines take turns in steps, with main.go as the receiver
--   of the channel that Connect returns.
-- - Db.Key: the keys of db/db.go. Db.Bolt: what db/ needs of the libraries bbolt and bson, as
--   records of operations with what their documentation says; Db.Bolt.Memory is one such bbolt.
-- - Db.Keyed, Db.Indexed: db/keyed.go and db/indexed.go; a transaction maps a state of the file to
--   a new one or an error, after which bbolt rolls back. Db.Scan: scanTxT, scanAll and scanMatch of
--   db/scan.go, and All and Match of db/keyed.go. Db.IndexedScan: scanIndexedAll of db/scan.go, and
--   All and Match of db/indexed.go. Db.Fsck: Fsck of both kinds of collections and its two passes.
-- - Db.Conf: the entries of db/conf/config.go; Db.Conf.InMemory and Db.Conf.Namespace: the two kinds
--   of namespaces of db/conf/inmemory.go and db/conf/namespace.go. An int in the database is one of
--   32 bits or not, as util/bson writes the two in different ways.
-- - Collections.PseudoRand: GetPseudoRand of collections/factoids/factoids.go and of
--   collections/quotes/quotes.go. Collections.Factoid: the other functions of the first on the
--   factoids that the database gives. Collections.Seen: the reference check of
--   collections/seen/seen.go. Collections.Karma, Collections.Urls, Collections.Stats:
--   collections/karma/karma.go, collections/urls/urls.go and collections/stats/stats.go.
-- - Drivers.Factoids: recurse of drivers/factdriver/handlers.go, over any way to get factoids.
-- - Drivers.Karma, Drivers.Stats: drivers/karmadriver and drivers/statsdriver. Drivers.Urls: Encode,
--   Shorten, the command shorten and urlScan of drivers/urldriver. Drivers.Quotes: RateLimit of
--   drivers/quotedriver/quotedriver.go. Drivers.Reminders: the goroutines of drivers/reminddriver.
-- The child modules of these hold lemmas and theorems, and modules named Tests hold examples.
--
-- Loops without a bound of their own run on fuel. A text's length and one are enough for the loops
-- of RemoveColours, as every round removes a byte or moves on by one; the limit of words and one are
-- enough for generate; what is left of the input and one are enough for Scan and Not; the length
-- of the input and one for the tokens of the calculator; 21 for recurse, which meets a new key in
-- each round and stops after 20; and the size of a bucket for its scan, where a bucket is larger than
-- those in it together. The length of the input and one are enough for karmaThings, and the number
-- of '<' in the text and one for ApplyPluginFunction with a function that writes none.
--
-- Not modelled: the setting up of the bot and its connection to IRC (bot/bot.go, main.go), the drivers
-- that are not listed above, what the drivers fetch from the web, the clients of web services, the
-- generated parser of dates, the copy of the bson library in util/bson, and what goes through package
-- regexp or prints.
pub mod Prelude
pub mod Util
pub mod Calc
pub mod Markov
pub mod Bot
pub mod Db
pub mod Collections
pub mod Datetime
pub mod Drivers
