-- ===== src/Table.antt =====
-- An SQLite table with a primary key, as the queries of orch/ see it: a row is found by its key,
-- written by INSERT or UPDATE, removed by DELETE, and `ORDER BY` the key lists the rows in order.
-- Keys are numbers: an identifier is 32 hexadecimal digits (uuid4().hex), whose order as text is
-- the order of the numbers that they write.
mod Keys
mod Sums
unfoldable pub use Keys.*
unfoldable pub use Sums.*
