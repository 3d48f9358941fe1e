-- ===== src/DataSource/Statements.antt =====
-- The statements whose meaning SQLite documents and DataSource/Sql assumes, word for word. The wrapper's
-- own texts stand in DataSource/Sqlite; a text that differs has no meaning assumed for it.
use daqs.Base.{String}

abbrev pub create_variable_text : String
create_variable_text =
    "CREATE TABLE VARIABLE(ID   INTEGER  PRIMARY KEY AUTOINCREMENT,COLOR CHAR(50),NAME CHAR(50) NOT NULL UNIQUE);"

abbrev pub create_value_text : String
create_value_text =
    "CREATE TABLE VARIABLE_VALUE(ID          INTEGER  PRIMARY KEY AUTOINCREMENT,VAL         DOUBLE   NOT NULL,TIMESTAMP   INTEGER NOT NULL,VARIABLE_ID INT      NOT NULL,FOREIGN KEY (VARIABLE_ID) REFERENCES VARIABLE(ID));"

abbrev pub insert_variable_text : String
insert_variable_text = "INSERT INTO VARIABLE(NAME, COLOR) VALUES('%q', '%q')"

abbrev pub insert_value_text : String
insert_value_text =
    "INSERT INTO VARIABLE_VALUE(VAL, TIMESTAMP, VARIABLE_ID) VALUES(%f, %ld, (SELECT ID FROM VARIABLE WHERE NAME = '%q'))"

abbrev pub select_variables_text : String
select_variables_text = "SELECT COLOR, NAME FROM VARIABLE"

abbrev pub select_values_text : String
select_values_text =
    "SELECT VAL, TIMESTAMP FROM VARIABLE_VALUE WHERE VARIABLE_ID = (SELECT ID FROM VARIABLE WHERE NAME = '%q')"

abbrev pub count_values_text : String
count_values_text =
    "SELECT COUNT(*) FROM VARIABLE_VALUE WHERE VARIABLE_ID = (SELECT ID FROM VARIABLE WHERE NAME = '%q')"

abbrev pub select_between_text : String
select_between_text =
    "SELECT VAL, TIMESTAMP FROM VARIABLE_VALUE WHERE VARIABLE_ID = (SELECT ID FROM VARIABLE WHERE NAME = '%q') AND TIMESTAMP >= %ld AND TIMESTAMP <= %ld;"

abbrev pub count_between_text : String
count_between_text =
    "SELECT COUNT(*) FROM VARIABLE_VALUE WHERE VARIABLE_ID = (SELECT ID FROM VARIABLE WHERE NAME = '%q') AND TIMESTAMP >= %ld AND TIMESTAMP <= %ld;"
