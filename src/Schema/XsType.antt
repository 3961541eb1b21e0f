-- ===== src/Schema/XsType.antt =====
-- `enum XsType` of core/schema.c.
use client.Base.{ℕ}

abbrev pub null : ℕ
null = 0

abbrev pub string : ℕ
string = 1

abbrev pub boolean : ℕ
boolean = 2

abbrev pub hex_binary : ℕ
hex_binary = 3

abbrev pub any_uri : ℕ
any_uri = 4

abbrev pub long : ℕ
long = 5

abbrev pub int : ℕ
int = 6

abbrev pub short : ℕ
short = 7

abbrev pub byte : ℕ
byte = 8

abbrev pub ulong : ℕ
ulong = 9

abbrev pub uint : ℕ
uint = 10

abbrev pub ushort : ℕ
ushort = 11

abbrev pub ubyte : ℕ
ubyte = 12
