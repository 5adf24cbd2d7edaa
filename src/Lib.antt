-- ===== src/Lib.antt =====
-- pfortainer: a verification library of the web console for Podman, ZFS and the services of a FreeBSD
-- host, and of its host agent.
--
-- The program is two processes. The console (main.go) serves pages behind a session cookie, keeps its
-- state in SQLite (configdb.go), runs schedules (scheduler.go) and sends alerts (alerting.go). The
-- host agent (hostd.go) runs commands as root for the console, over a socket.
--
-- The files, and what they model:
--   Base        texts as lists of bytes, list and number helpers, the functions of package strings
--   Http        answers of handlers, cookies and the browser's jar (net/http)
--   Session     session.go and the roles of configdb.go; Signature and Cookies prove
--   Routes      requireRole and the table of routes of main.go; Guarded proves
--   Store       the tables of configdb.go (migrate). A method is a function from the database to a
--               result and a database; `faults` are the driver's coming answers. Rows has the clauses
--               of SQL, Statement the driver; Users, Schedules, Alerts (with meta) and Replication
--               have the methods, and their children the proofs
--   Admin       adminUserCreate and its neighbours in handlers.go; Self proves
--   Totp        totp.go: codes, their window, the pre-auth cookie; Window, Decimal, PreAuth prove
--   Login       login, totpVerify and the second factor in handlers.go; Factor and Weak prove
--   Calendar    nextRunTime of scheduler.go, with Time.Truncate, Weekday and Date; Months, Next,
--               Boundary and Seconds prove
--   Scheduler   tick, run, RunNow, replTick of scheduler.go, over a record of what the machine does;
--               Tick proves
--   Tasks       scheduleCreate, replicationRun and their neighbours in handlers.go; Created proves
--   Alerting    fireAlert of alerting.go; Check the stored settings and checkAndFireAlerts; Rounds,
--               Raised and Overflow prove
--   FilePath    the paths of filemanager.go (cleanPath, safePath, parentDir, buildBreadcrumbs), with
--               what they use of path/filepath; Resolve, Parts and Crumbs prove
--   Files       the handlers of filemanager.go over a record of the calls of package os: Change those
--               that change files, Listing and View those that show them, Sort the order, Clipboard and
--               Copy the clipboard; Scope, Listed, Modes, Pasting and Copying prove; Memory is a file
--               system for the tests
--   Datasets    the lists of zfs.go, as functions of what zfs and zpool print; Snapshots has
--               listSnapshots; Tree proves
--   Storage     the parsers of storage.go: zpool status, and in Disks smartctl; Pools proves
--   Hostd       hostd.go: Zfs the snapshot requests, Users those on local users and groups, Smb the
--               setup of Samba, Shares the share files of Samba and in Exports those of NFS, Replication
--               the choice and sending of snapshots. The state is the list of the commands run, in Shares
--               that of the files; the host is any function from the commands before and a command to
--               its output and error
-- Tests modules hold runs on concrete inputs.
--
-- Names are those of the source in snake_case: CreateUser is create_user, DueSchedules due_schedules.
-- A time is a number of nanoseconds since 1970 UTC. Numbers have no upper bound, but where the program
-- meets one: ParseInt refuses 2^63, the cooldown of alerts wraps as an int64, and a scanner stops before a
-- line of 64 KiB. A location has a fixed offset from UTC, without daylight saving. The verb %q is written
-- out for characters that are ASCII or printable.
--
-- Parameters, for code outside the repository: HMAC-SHA256, HMAC-SHA1, base32, bcrypt (that it accepts
-- the passwords that it hashed), the text of SQLite's error on a second row with a UNIQUE value, the
-- answers of the driver, the commands of the host, its file system, JSON of the clipboard and of the
-- alert settings, floats
-- (fmtBytes, percentages) and the layout of time.Format.
--
-- Fuel: the loop to the next Monday has six steps, enough from any day; the search for a month has one
-- step more than days since 1970; the digits of n have n + 1 steps; copyDir has as many as the limit on
-- paths leaves it nested calls, and is shown to need no more.
--
-- Not modelled: rendering, the Podman and SMTP clients, the socket server, the timer loop, logging, and
-- the parts of hostd.go, zfs.go, handlers.go and metrics.go that no file above names.
-- A form parses always. A query fails as a whole or not at all.
pub mod Admin
pub mod Alerting
pub mod Base
pub mod Calendar
pub mod Datasets
pub mod FilePath
pub mod Files
pub mod Hostd
pub mod Http
pub mod Login
pub mod Routes
pub mod Scheduler
pub mod Session
pub mod Storage
pub mod Store
pub mod Tasks
pub mod Totp
