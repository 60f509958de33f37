-- ===== src/Lib.antt =====
-- PowerDNS admin panel: a model of the Flask application in webui/app, and theorems about it.
--
-- The panel edits the zones of a PowerDNS Authoritative Server and the forward zones of a Recursor,
-- through their HTTP APIs, for users that it knows from its own database, from a directory or from an
-- identity provider. Its parts and the files that model them:
--
--   Prelude, Text      names shared by all parts; Python's str as a list of code points, with the methods
--                      that the panel calls, its int of a text, and sets as lists
--   Names              canonical, relative_name, absolute_name of webui/app/pdns.py
--   Roles              GroupRoleMap of webui/app/config.py, from directory groups to a role
--   Config             webui/app/config.py: the env_ readers, and the providers that the environment
--                      configures (Config/Providers, Config/Saml, Config/Auth)
--   Store, Form, Dict  the tables of webui/app/models.py, audit.record of webui/app/audit.py, posted forms,
--                      Python's dict
--   Session            the session, the access decorators and the CSRF token of webui/app/security.py
--   Redirect           same_origin_path and its callers, of webui/app/security.py
--   Passwords          password_problems and verify_password of webui/app/security.py
--   Throttle           LoginThrottle of webui/app/security.py
--   Admin              the posts of webui/app/views/admin.py
--   Profile            the posts of webui/app/views/profile.py
--   Provision          resolve_identity of webui/app/auth/provisioning.py
--   Login              login and logout of webui/app/views/auth_views.py, webui/app/auth/local.py
--   Ldap               webui/app/auth/ldap_auth.py: the servers in order, filters (Ldap/Filters), groups
--                      (Ldap/Entries), and the binds of a sign-in (Ldap/Bind)
--   Providers          webui/app/auth/store.py: the rows of stored providers, with the secrets of
--                      webui/app/crypto.py, the providers in effect (Providers/Effective), and the
--                      posts of webui/app/views/authproviders.py (Providers/Forms)
--   Pdns               the requests of PdnsClient in webui/app/pdns.py that the sync of PTRs makes, and in
--                      Pdns/Zones those on whole zones and their keys
--   Reverse            webui/app/reverse.py: the zone a name falls in (Reverse), the zones of a network
--                      (Reverse/Networks), the links in the database (Reverse/Links), and the sync of a record set
--                      with its PTRs (Reverse/Sync)
--   Recursor           zone identifiers and forwarder addresses of webui/app/recursor.py; the requests and
--                      sync_local_zones in Recursor/Client
--   DnsUtil            TTLs, the administrator's address and the checks of a record set (DnsUtil/Records), of
--                      webui/app/dnsutil.py
--   Zones              webui/app/views/zones.py: saving and deleting records (Zones/Records) with their PTRs
--                      (Zones/Sync), the Recursor's rule for a zone (Zones/Resolver), deletion and transfers
--                      (Zones/Delete), creation with reverse zones (Zones/Create), DNSSEC (Zones/Dnssec)
--   Forwarding         the requests of webui/app/views/forwarding.py
--   Samples            accounts and a database for the tests, which stand in modules called Tests
--
-- How code and model correspond. A handler is a function from the database (the record Db of lists of
-- rows, in the order of their keys) to what the page says and the database that is left; a request that
-- ends without a commit leaves the database of before. The session is the record of the three values
-- that the panel keeps in its cookie. An API is a record of operations on a state of any type (Api,
-- RecursorApi): it answers each request, with a PdnsError or a payload, and may change its state as it
-- likes, reads included; so a theorem about a sync holds for any server. A Python exception is a
-- constructor of a result type. Definitions have the names of the functions they model.
--
-- Numbers are natural numbers. The clock of the counter counts ticks, `second` of them to a second. The
-- digits of a number are computed on fuel, one round more than the number, which is enough since each
-- round divides by ten or sixteen. Everything else recurs on a list or on a number of labels.
--
-- Parameters of the model, since their code is not in the repository: Werkzeug's password hash, the
-- random tokens, dnspython, ldap3, the cipher Fernet, the environment with its files, and both
-- servers' APIs; and, so that the theorems hold whatever they answer, Python's parsing of addresses,
-- networks and URLs. Case is changed for ASCII letters only, and a provider's name keeps only letters
-- and digits of ASCII. A stored provider has the settings that the forms store: a list, an object, a
-- number or a Boolean where a text is read is left out. Messages to the user are constructors, not texts. Timestamps that no code reads
-- are left out, and the audit insert is taken to succeed.
--
-- Not modelled: the settings form of a zone with its SOA record, the test of a stored provider, the
-- transport of both API clients with its error messages, OAuth and SAML themselves, the database's
-- URL, pages that only render, the set-up of the application, and the command line.
pub mod Prelude
pub mod Text
pub mod Names
pub mod Roles
pub mod Store
pub mod Form
pub mod Dict
pub mod Throttle
pub mod Passwords
pub mod Session
pub mod Admin
pub mod Provision
pub mod Reverse
pub mod Pdns
pub mod Recursor
pub mod Login
pub mod DnsUtil
pub mod Samples
pub mod Redirect
pub mod Zones
pub mod Forwarding
pub mod Ldap
pub mod Config
pub mod Profile
pub mod Providers
