-- ===== src/Lib.antt =====
-- licitaciones-mcp: a service that collects public tenders of PLACSP (Spain) and TED (Europe),
-- stores them in Postgres, and answers searches of an MCP client or of daily jobs.
--
-- Parts. A source (src/licitaciones_mcp/sources) answers with raw notices, which it turns into
-- tenders by core/: normalised texts, CPV codes, countries and statuses. The ingest (jobs/runner.py)
-- fetches a source under a run that the database records, and upserts its tenders by their dedupe
-- key, with the issues of the validation; the backfill of cli.py does so for a range of periods,
-- with a cursor for each. A search selects rows of the tables, filters them again by the filters of
-- core/scoring.py, ranks them and cuts a page; a hybrid search fuses two retrieved lists. The tool
-- of server/tools.py builds the filters of a request and chooses the search. The scheduler
-- (jobs/scheduler.py) runs the saved searches, ocds/ exports tenders, documents/ downloads and parses
-- their files, and server/ lets in the requests that carry the bearer token. All requests to the
-- sources go through the rate limiter and the retries of http/client.py.
--
-- Files, and the code under src/licitaciones_mcp that each is about:
--   Base            lists, texts, dictionaries, sorting and results that all parts use;
--                   Base/Unicode is what the program takes from Python's Unicode tables
--   Core/Models, Core/Public, Core/Json       core/models.py
--   Core/Normalization, Core/Parsing          core/normalization.py
--   Core/Countries        core/countries.py
--   Core/Scoring, Core/Ranking    core/scoring.py    Core/Catalogs    core/catalogs.py
--   Core/Quality          core/quality.py            Core/Dedupe      core/dedupe.py
--   Storage/Search, Storage/Retrieval, Storage/Hybrid   the searches of storage/database.py
--   Storage/Facets        its facets and counts
--   Storage/Upsert, Storage/Records       its upsert, and the rows of storage/models.py
--   Storage/FetchRuns, Storage/Cursors, Storage/Documents   its runs, cursors and documents
--   Http/RateLimiter, Http/Retry  http/client.py
--   Jobs/Scheduler        jobs/scheduler.py
--   Jobs/Ingest, Jobs/PeriodIngest, Jobs/Runner      jobs/runner.py, and the storage of job runs
--   Sources/Period, Sources/Placsp    sources/placsp.py
--   Sources/TedQuery, Sources/TedNotice, Sources/TedResponse, Sources/TedFetch   sources/ted.py
--   Server/Auth           server/auth.py             Server/Filters, Server/Tools   server/tools.py
--   Ocds/Release          ocds/mapper.py and ocds/package.py
--   Documents/Download    documents/downloader.py
--   Documents/Processor   the other files of documents/
--   Cli/Backfill, Cli/DocumentsProcess    two commands of cli.py
--   Tests           data, and the theorems at concrete inputs
-- A definition has the name of the function or class that it stands for, without the leading
-- underscore of a private one. The modules below a component hold its theorems.
--
-- Conventions. A text is the list of its code points. An amount of money is a number of
-- hundredths, a score one of millionths, an instant one of microseconds; the floating-point sums
-- of the fusion are exact fractions, those of the rate limiter whole units, and the waits of the
-- retries milliseconds. A moment has its instant and the date of its zone; a row keeps the instant
-- alone, and is read in UTC (Storage/Records), while the tables of World hold a tender as it was
-- written. A regular expression is written out as a function on the text, and a SQL statement as
-- the predicate that it states of a row. Code that raises returns the error as a value
-- (Base/Result), and code that changes the database passes its tables on (World of Jobs/Ingest,
-- Backfill and Processing of Cli). Loops are recursion on the list that they read, or on the
-- number of turns that the code itself bounds. Fuel is used twice: by `str` in Sources/Period,
-- where the number itself is enough, since each step divides it by ten, and by the paging of
-- Sources/TedFetch, where as many full pages as cover the limit, and one turn more, are enough,
-- since a page that is not full ends the loop.
--
-- Parameters: Python's Unicode tables (with the laws IsUnicode, which the ASCII tables meet), its
-- readers of moments and numbers, SHA-256, isoformat, the operators and orders of Postgres (with
-- the law that `ORDER BY` returns the rows that it is given), pgvector, the tree of an XML parser,
-- the readers of ZIP and PDF files, the exponential wait of tenacity (with its maximum), the
-- sleeps of the rate limiter in an attempt of a request, APScheduler's reading of a cron text, the
-- answers of the sources and of the embedding service, the clock and the new ids. Where a theorem
-- needs that a parameter leaves a table alone, it says so.
--
-- Not modelled: the set-up of the schema, migrations, configuration and logging, the FastMCP and
-- Starlette wiring, the tools and commands that pass one call on, streaming with retries, the calls
-- of embedding services and the writing of embeddings, the labels, catalogs and ranges beside the
-- facet counts, the metadata of fetch runs and results, and the loop and heartbeat of the scheduler.
pub mod Base
pub mod Core
pub mod Storage
pub mod Http
pub mod Jobs
pub mod Sources
pub mod Server
pub mod Ocds
pub mod Documents
pub mod Cli
mod Tests
